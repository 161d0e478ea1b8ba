-- ===== src/Tests/Asking.antt =====
-- auth/terminal/code.go and auth/dialog/dialog.go on scripts of answers.
use tgcontrib.Base.{◌≡◌, refl, inr, true, List, [], ◌∷◌, none, some}
use mathlib.Core.Path.{subst}
use tgcontrib.Base.Int.{pos}
use tgcontrib.Base.Runes.{Runes, trim_space, byte_length, to_lower}
use tgcontrib.Base.Text.{codes}
use tgcontrib.Auth.Ask.{Message, not_flashing, answer, answer_no}
use tgcontrib.Auth.Terminal
use tgcontrib.Auth.Terminal.{Line, line, no_line, Console}
use tgcontrib.Auth.Terminal.Loops.{code_retries, code-byte_length, accept_verdict}
use tgcontrib.Auth.Dialog
use tgcontrib.Auth.Dialog.{Entered, entered, not_shown, Dialogs}
use tgcontrib.Auth.Dialog.Loops.{SameUser, SameText, Agree, code_agrees}

abbrev Script : Type 0
Script = List Runes

abbrev next_line : Script → Script × Line
next_line [] = ([], no_line 7)
next_line (x ∷ xs) = (xs, line x)

abbrev console : Console Script
console = record { set_prompt = λ p t. t; read_line = next_line; write = λ s t. (t, none) }

abbrev next_window : Script → Script × Entered
next_window [] = ([], not_shown 7)
next_window (x ∷ xs) = (xs, entered x)

abbrev windows : Dialogs Script
windows = record {
  entry = λ title prompt d. next_window d;
  password_window = λ title prompt d. next_window d;
  question = λ title text d. (d, true, none);
  error_window = λ title text d. (d, none);
}

abbrev sprintf : Message → Runes
sprintf m = codes "message"

abbrev answers : Script
answers = codes "123" ∷ codes " 12345\n" ∷ codes "99999" ∷ []

code_retries_example :
    Terminal.code console sprintf 2 (not_flashing (pos 5)) answers
    ≡ some (codes "99999" ∷ [], answer (trim_space (codes " 12345\n")))
unfolding Terminal.with_prompt trim_space byte_length
code_retries_example =
    code_retries console sprintf (not_flashing (pos 5)) (codes "123" ∷ []) (codes " 12345\n")
      answers (codes " 12345\n" ∷ codes "99999" ∷ []) (codes "99999" ∷ [])
      (
        codes " 12345\n" ∷ codes "99999" ∷ [],
        codes " 12345\n" ∷ codes "99999" ∷ [],
        refl,
        refl,
        refl,
        refl,
      )
      refl refl

code_run :
    Terminal.code console sprintf 2 (not_flashing (pos 5)) answers
    ≡ some (codes "99999" ∷ [], answer (codes "12345"))
unfolding Terminal.code trim_space byte_length
code_run = refl

code-byte_length_example : pos (byte_length (codes "12345")) ≡ pos 5
unfolding Terminal.code trim_space byte_length
code-byte_length_example =
    code-byte_length console sprintf 2 (pos 5) answers (codes "99999" ∷ []) (codes "12345") refl

spaces_of_unicode : trim_space (0x2003 ∷ b'7' ∷ 0xA0 ∷ []) ≡ b'7' ∷ []
unfolding trim_space
spaces_of_unicode = refl

accept_verdict_run :
    Terminal.accept_terms_of_service console sprintf 2
      (codes "terms")
      (codes "what" ∷ codes "No" ∷ [])
    ≡ some ([], some answer_no)
unfolding to_lower
accept_verdict_run =
    accept_verdict console sprintf (codes "terms") (codes "what" ∷ []) (codes "No")
      (codes "what" ∷ codes "No" ∷ []) (codes "what" ∷ codes "No" ∷ []) (codes "No" ∷ []) [] refl
      (codes "No" ∷ [], refl, refl, refl) refl (inr refl)

same_next :
    (t : Script)
    → SameText (next_line t).1 (next_window t).1 × ((next_line t).0 ≡ (next_window t).0)
same_next [] = (refl, refl)
same_next (x ∷ xs) = (refl, refl)

same_script : SameUser console windows sprintf (not_flashing (pos 5)) (λ t d. t ≡ d)
unfolding Terminal.with_prompt
same_script = record {
  asks = λ t d e.
      subst
        (λ z. SameText (next_line t).1 (next_window z).1 × ((next_line t).0 ≡ (next_window z).0)) e
        (same_next t);
  tells = λ t d e. (refl, refl, e);
}

code_agrees_example :
    Agree console windows sprintf
      (not_flashing (pos 5))
      (λ t d. t ≡ d)
      (Terminal.code console sprintf 3 (not_flashing (pos 5)) answers)
      (Dialog.code windows sprintf 3 (not_flashing (pos 5)) answers)
code_agrees_example =
    code_agrees console windows sprintf (not_flashing (pos 5)) (λ t d. t ≡ d) same_script 3 answers
      answers refl
