-- ===== src/Auth/Dialog.antt =====
-- auth/dialog/dialog.go: the authenticator that asks by windows.
-- The windows (github.com/gen2brain/dlgs) and the printer of the messages are parameters.
pub mod Loops
use tgcontrib.Base.{
  ℕ, zero, suc, Bool, true, false, [], ◌∷◌, ◌++◌, Option, none, some, if◌then◌else◌,
}
use tgcontrib.Base.Runes.{Runes, trim_space}
use tgcontrib.Auth.Ask.{
  Message, phone_title, phone_prompt, password_title, password_prompt, tos_title, first_name_title,
  first_name_prompt, second_name_title, second_name_prompt, code_title, code_prompt, SentCode,
  UserInfo, AskError, writing, showing, dialog_closed, Asked, answer, failed,
}
use tgcontrib.Auth.Terminal.{fits, misfit}

-- What a window gives: a text, that it was closed, or an error.
pub data Entered : Type 0 where
  entered : Runes → Entered
  closed : Entered
  not_shown : ℕ → Entered

-- `dlgs`, on its state `D`. `question` gives whether the answer is yes.
pub record Dialogs (D : Type 0) : Type 0 where
  pub entry : Runes → Runes → D → D × Entered
  pub password_window : Runes → Runes → D → D × Entered
  pub question : Runes → Runes → D → D × Bool × Option ℕ
  pub error_window : Runes → Runes → D → D × Option ℕ

module _ {D : Type 0} (dialogs : Dialogs D) (sprintf : Message → Runes) where
  to_answer : D × Entered → D × Asked Runes
  to_answer (d, entered s) = (d, answer s)
  to_answer (d, closed) = (d, failed dialog_closed)
  to_answer (d, not_shown e) = (d, failed (showing e))

  unfoldable pub phone : D → D × Asked Runes
  unfolding to_answer
  phone d = to_answer (dialogs.entry (sprintf phone_title) (sprintf phone_prompt) d)

  unfoldable pub password : D → D × Asked Runes
  unfolding to_answer
  password d =
      to_answer (dialogs.password_window (sprintf password_title) (sprintf password_prompt) d)

  terms : D × Bool × Option ℕ → D × Option AskError
  terms (d, ok, some e) = (d, some (showing e))
  terms (d, true, none) = (d, none)
  terms (d, false, none) = (d, some dialog_closed)

  unfoldable pub accept_terms_of_service : Runes → D → D × Option AskError
  unfolding terms
  accept_terms_of_service tos d = terms (dialogs.question (sprintf tos_title) tos d)

  second_name : Runes → D × Entered → D × Asked UserInfo
  second_name first (d, entered s) = (d, answer (record { first_name = first; last_name = s }))
  second_name first (d, closed) = (d, failed dialog_closed)
  second_name first (d, not_shown e) = (d, failed (showing e))

  first_name : D × Entered → D × Asked UserInfo
  unfolding second_name
  first_name (d, entered s) =
      second_name s (dialogs.entry (sprintf second_name_title) (sprintf second_name_prompt) d)
  first_name (d, closed) = (d, failed dialog_closed)
  first_name (d, not_shown e) = (d, failed (showing e))

  unfoldable pub sign_up : D → D × Asked UserInfo
  unfolding first_name
  sign_up d = first_name (dialogs.entry (sprintf first_name_title) (sprintf first_name_prompt) d)

  -- behind the window for a code that does not fit
  pub retry : (D → Option (D × Asked Runes)) → D × Option ℕ → Option (D × Asked Runes)
  retry again (d, none) = again d
  retry again (d, some e) = some (d, failed (writing e))

  pub check_code :
      (D → Option (D × Asked Runes)) → SentCode → D × Entered → Option (D × Asked Runes)
  unfolding retry
  check_code again sent (d, not_shown e) = some (d, failed (showing e))
  check_code again sent (d, closed) = some (d, failed dialog_closed)
  check_code again sent (d, entered s) =
      let code = trim_space s in
      if fits sent code
      then some (d, answer code)
      else retry again
          (dialogs.error_window (sprintf code_title) (sprintf (misfit sent) ++ b'\n' ∷ []) d)

  -- `Code`; the fuel counts the questions
  unfoldable pub code : ℕ → SentCode → D → Option (D × Asked Runes)
  unfolding check_code
  code zero sent d = none
  code (suc f) sent d =
      check_code (code f sent) sent (dialogs.entry (sprintf code_title) (sprintf code_prompt) d)
