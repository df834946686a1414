-- ===== src/Web/Toasts.antt =====
-- The messages that the pages show, by `useMessage` of naive-ui.
use ai_api_proxy.Common.Strings.{JsString}

-- `message.success`, `.error`, `.warning` and `.info`
pub data Toast : Type 0 where
  success failure warning info : JsString → Toast
