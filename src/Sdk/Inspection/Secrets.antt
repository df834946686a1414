-- ===== src/Sdk/Inspection/Secrets.antt =====
-- What `inspect` shows of secrets.
use ai_api_proxy.Common.{true, if◌then◌else◌, ◌≡◌, refl, ap, ap₂}
use ai_api_proxy.Common.Strings.{JsString, js}
use ai_api_proxy.Json.{Json, Items, Members, string, array, object, nil, item, end, field}
use ai_api_proxy.Sdk.Inspection.{is_secret, mask, mask_items, mask_members, shorten, inspect}

module _ {N : Type 0} where
  -- Two values that are the same but for what stands under the names of secrets.
  mutual
    pub data SameBut : Json N → Json N → Type 0 where
      same : (v : Json N) → SameBut v v
      in_array : {xs ys : Items N} → SameItems xs ys → SameBut (array xs) (array ys)
      in_object : {ms ns : Members N} → SameMembers ms ns → SameBut (object ms) (object ns)

    pub data SameItems : Items N → Items N → Type 0 where
      no_items : SameItems nil nil
      both_items :
          {v w : Json N} {xs ys : Items N}
          → SameBut v w
          → SameItems xs ys
          → SameItems (item v xs) (item w ys)

    pub data SameMembers : Members N → Members N → Type 0 where
      no_members : SameMembers end end
      both_members :
          {k : JsString} {v w : Json N} {ms ns : Members N}
          → SameBut v w
          → SameMembers ms ns
          → SameMembers (field k v ms) (field k w ns)
      secret :
          {k : JsString} {v w : Json N} {ms ns : Members N}
          → is_secret k ≡ true
          → SameMembers ms ns
          → SameMembers (field k v ms) (field k w ns)

  mutual
    unfolding mask

    mask-SameBut : {v w : Json N} → SameBut v w → mask v ≡ mask w
    mask-SameBut (same v) = refl
    mask-SameBut (in_array h) = ap array (mask_items-SameItems h)
    mask-SameBut (in_object h) = ap object (mask_members-SameMembers h)

    mask_items-SameItems : {xs ys : Items N} → SameItems xs ys → mask_items xs ≡ mask_items ys
    mask_items-SameItems no_items = refl
    mask_items-SameItems (both_items h hs) = ap₂ item (mask-SameBut h) (mask_items-SameItems hs)

    mask_members-SameMembers :
        {ms ns : Members N} → SameMembers ms ns → mask_members ms ≡ mask_members ns
    mask_members-SameMembers no_members = refl
    mask_members-SameMembers (both_members {k} h hs) =
        ap₂ (λ x rest. field k (if is_secret k then string (js "***") else x) rest) (mask-SameBut h)
          (mask_members-SameMembers hs)
    mask_members-SameMembers (secret {k} h hs) =
        rw h (ap (field k (string (js "***"))) (mask_members-SameMembers hs))

-- What stands under the name of a secret does not show: two values that differ only there, at
-- whatever depth, have the same text.
pub inspect-SameBut :
    {N : Type 0} (stringify : Json N → JsString) {v w : Json N}
    → SameBut v w
    → inspect stringify v ≡ inspect stringify w
unfolding inspect
inspect-SameBut stringify h = ap (λ u. shorten (stringify u)) (mask-SameBut h)
