-- ===== src/Auth/Ask.antt =====
-- Package auth: the parts of the authentication that ask the user (ask.go, signup.go, build.go,
-- credentials.go), and the messages of auth/localization.
-- `UserAuthenticator`, the code that Telegram sent and the terms of service are github.com/gotd/td's.
use tgcontrib.Base.{ℕ, Option, none, some}
use tgcontrib.Base.Int.{ℤ}
use tgcontrib.Base.Runes.{Runes}

-- The keys of the localized messages; the invalid length is a message with an argument.
pub data Message : Type 0 where
  phone_title phone_prompt password_title password_prompt tos_title tos_prompt : Message
  first_name_title first_name_prompt second_name_title second_name_prompt : Message
  code_title code_prompt code_does_not_match_pattern : Message
  code_invalid_length : ℤ → Message

-- `tg.AuthSentCode` by its type: one that has a length, or the flash call.
pub data SentCode : Type 0 where
  not_flashing : ℤ → SentCode
  flash_call : SentCode

pub record UserInfo : Type 0 where
  pub first_name : Runes
  pub last_name : Runes

-- The errors of an authenticator; a number is the error of the device that asks.
-- `sign_up_required` is `tgauth.SignUpRequired`, `not_expected` is `ErrSignUpIsNotExpected`.
pub data AskError : Type 0 where
  reading writing showing : ℕ → AskError
  dialog_closed answer_no sign_up_required not_expected : AskError

pub data Asked (A : Type 0) : Type 0 where
  answer : A → Asked A
  failed : AskError → Asked A

-- `Credentials`, `SignUpFlow` and `CodeAuthenticator`, on the state `S` of what asks. `none` means
-- that the fuel of a loop ran out.
pub record AskCredentials (S : Type 0) : Type 0 where
  pub phone : S → S × Asked Runes
  pub password : S → S × Asked Runes

pub record SignUpFlow (S : Type 0) : Type 0 where
  pub accept_terms_of_service : ℕ → Runes → S → Option (S × Option AskError)
  pub sign_up : S → S × Asked UserInfo

pub record CodeAuthenticator (S : Type 0) : Type 0 where
  pub code : ℕ → SentCode → S → Option (S × Asked Runes)

-- `Ask`
pub record Ask (S : Type 0) : Type 0 where
  pub code_authenticator : CodeAuthenticator S
  pub sign_up_flow : SignUpFlow S

-- `auth`, the user authenticator
pub record Authenticator (S : Type 0) : Type 0 where
  pub credentials : AskCredentials S
  pub ask : Ask S

module _ {S : Type 0} where
  unfoldable pub build_ask : CodeAuthenticator S → SignUpFlow S → Ask S
  build_ask code sign_up = record { code_authenticator = code; sign_up_flow = sign_up }

  unfoldable pub build : AskCredentials S → Ask S → Authenticator S
  build cred ask = record { credentials = cred; ask = ask }

  -- `AutoAccept`
  unfoldable pub auto_accept : ℕ → Runes → S → Option (S × Option AskError)
  auto_accept fuel tos s = some (s, none)

  unfoldable pub constant_sign_up : UserInfo → SignUpFlow S
  unfolding auto_accept
  constant_sign_up info = record {
    accept_terms_of_service = auto_accept;
    sign_up = λ s. (s, answer info);
  }

  unfoldable pub no_sign_up : SignUpFlow S
  no_sign_up = record {
    accept_terms_of_service = λ fuel tos s. some (s, some sign_up_required);
    sign_up = λ s. (s, failed not_expected);
  }
