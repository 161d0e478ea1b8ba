-- ===== src/Auth/Catalog.antt =====
-- auth/localization/catalog.go: the English text of each key. `%d` and `%s` stand for an argument,
-- which the printer (golang.org/x/text/message) puts in.
use tgcontrib.Base.{Bytes}
use tgcontrib.Base.Text.{codes}
use tgcontrib.Auth.Ask.{
  Message, phone_title, phone_prompt, password_title, password_prompt, tos_title, tos_prompt,
  first_name_title, first_name_prompt, second_name_title, second_name_prompt, code_title,
  code_prompt, code_does_not_match_pattern, code_invalid_length,
}

-- `Catalog`
unfoldable pub catalog : Message → Bytes
catalog phone_title = codes "Your phone"
catalog phone_prompt = codes "Phone"
catalog password_title = codes "Your password"
catalog password_prompt = codes "Password"
catalog tos_title = codes "Telegram requested sign up"
catalog tos_prompt = codes "Accept"
catalog first_name_title = codes "Your first name"
catalog first_name_prompt = codes "First name"
catalog second_name_title = codes "Your last name"
catalog second_name_prompt = codes "Last name"
catalog code_title = codes "Verification code"
catalog code_prompt = codes "Code"
catalog (code_invalid_length n) = codes "Code is invalid, length must be %d"
catalog code_does_not_match_pattern = codes "Code is invalid, code must match %s"
