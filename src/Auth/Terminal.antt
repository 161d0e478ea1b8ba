-- ===== src/Auth/Terminal.antt =====
-- auth/terminal/code.go: the authenticator that asks on a terminal.
-- The terminal (golang.org/x/term) and the printer of the messages are parameters.
pub mod Loops
use tgcontrib.Base.{
  ℕ, zero, suc, Bool, true, false, ◌||◌, [], ◌∷◌, ◌++◌, Option, none, some, ◌==◌, if◌then◌else◌,
}
use tgcontrib.Base.Int.{equal_ℤ, ℤ, pos}
use tgcontrib.Base.Runes.{Runes, trim_space, byte_length, to_lower}
use tgcontrib.Base.Text.{codes, equal}
use tgcontrib.Auth.Ask.{
  Message, phone_prompt, password_prompt, tos_title, tos_prompt, first_name_prompt,
  second_name_prompt, code_prompt, code_invalid_length, SentCode, not_flashing, flash_call,
  UserInfo, AskError, reading, writing, answer_no, Asked, answer, failed,
}

-- What `ReadLine` gives.
pub data Line : Type 0 where
  line : Runes → Line
  no_line : ℕ → Line

-- The terminal, on its state `T`.
pub record Console (T : Type 0) : Type 0 where
  pub set_prompt : Runes → T → T
  pub read_line : T → T × Line
  pub write : Runes → T → T × Option ℕ

-- the answer of `Code` fits the code that was sent
abbrev pub fits : SentCode → Runes → Bool
fits (not_flashing n) code = equal_ℤ (pos (byte_length code)) n
fits flash_call code = true

-- the message for an answer that does not
abbrev pub misfit : SentCode → Message
misfit (not_flashing n) = code_invalid_length n
misfit flash_call = code_invalid_length (pos 0)

pub data Choice : Type 0 where
  accepts declines unclear : Choice

-- the switch of `AcceptTermsOfService`
abbrev pub choice : Runes → Choice
choice y =
    let a = to_lower y in
    if equal a (codes "y") || equal a (codes "yes")
    then accepts
    else if equal a (codes "n") || equal a (codes "no")
    then declines
    else unclear

module _ {T : Type 0} (console : Console T) (sprintf : Message → Runes) where
  unfoldable pub with_prompt : Runes → T → T × Line
  with_prompt prompt t =
      let (t', l) = console.read_line (console.set_prompt prompt t) in (console.set_prompt [] t', l)

  to_answer : T × Line → T × Asked Runes
  to_answer (t, line s) = (t, answer s)
  to_answer (t, no_line e) = (t, failed (reading e))

  unfoldable pub phone : T → T × Asked Runes
  unfolding with_prompt to_answer
  phone t = to_answer (with_prompt (sprintf phone_prompt ++ b':' ∷ []) t)

  unfoldable pub password : T → T × Asked Runes
  unfolding with_prompt to_answer
  password t = to_answer (with_prompt (sprintf password_prompt ++ b':' ∷ []) t)

  -- behind the message for a code that does not fit
  unfoldable pub retry : (T → Option (T × Asked Runes)) → T × Option ℕ → Option (T × Asked Runes)
  retry again (t, none) = again t
  retry again (t, some e) = some (t, failed (writing e))

  unfoldable pub check_code :
      (T → Option (T × Asked Runes)) → SentCode → T × Line → Option (T × Asked Runes)
  unfolding retry
  check_code again sent (t, no_line e) = some (t, failed (reading e))
  check_code again sent (t, line s) =
      let code = trim_space s in
      if fits sent code
      then some (t, answer code)
      else retry again (console.write (sprintf (misfit sent) ++ b'\n' ∷ []) t)

  -- `Code`; the fuel counts the questions
  unfoldable pub code : ℕ → SentCode → T → Option (T × Asked Runes)
  unfolding check_code with_prompt
  code zero sent t = none
  code (suc f) sent t =
      check_code (code f sent) sent (with_prompt (sprintf code_prompt ++ b':' ∷ []) t)

  last_name : Runes → T × Line → T × Asked UserInfo
  last_name first (t, line s) = (t, answer (record { first_name = first; last_name = s }))
  last_name first (t, no_line e) = (t, failed (reading e))

  first_name : T × Line → T × Asked UserInfo
  unfolding last_name with_prompt
  first_name (t, line s) = last_name s (with_prompt (sprintf second_name_prompt ++ b':' ∷ []) t)
  first_name (t, no_line e) = (t, failed (reading e))

  unfoldable pub sign_up : T → T × Asked UserInfo
  unfolding first_name with_prompt
  sign_up t = first_name (with_prompt (sprintf first_name_prompt ++ b':' ∷ []) t)

  pub decide : (T → Option (T × Option AskError)) → T → Choice → Option (T × Option AskError)
  decide again t accepts = some (t, none)
  decide again t declines = some (t, some answer_no)
  decide again t unclear = again t

  pub decide_line : (T → Option (T × Option AskError)) → T × Line → Option (T × Option AskError)
  unfolding decide
  decide_line again (t, no_line e) = some (t, some (reading e))
  decide_line again (t, line y) = decide again t (choice y)

  -- the loop of `AcceptTermsOfService`; the fuel counts the answers
  pub accept_loop : ℕ → T → Option (T × Option AskError)
  unfolding decide_line
  accept_loop zero t = none
  accept_loop (suc f) t = decide_line (accept_loop f) (console.read_line t)

  pub unset_prompt : Option (T × Option AskError) → Option (T × Option AskError)
  unset_prompt none = none
  unset_prompt (some (t, r)) = some (console.set_prompt [] t, r)

  pub after_title : ℕ → T × Option ℕ → Option (T × Option AskError)
  unfolding accept_loop unset_prompt
  after_title f (t, some e) = some (t, some (writing e))
  after_title f (t, none) =
      unset_prompt (accept_loop f (console.set_prompt (sprintf tos_prompt ++ codes "(Y/N):") t))

  unfoldable pub accept_terms_of_service : ℕ → Runes → T → Option (T × Option AskError)
  unfolding after_title
  accept_terms_of_service f tos t =
      after_title f (console.write (sprintf tos_title ++ (codes "\n\n" ++ tos)) t)
