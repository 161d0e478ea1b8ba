-- ===== src/Auth/Terminal/Loops.antt =====
-- auth/terminal/code.go: the loops of `Code` and of `AcceptTermsOfService`.
use tgcontrib.Base.{
  ℕ, zero, suc, ◌≡◌, ◌⊎◌, inl, inr, refl, sym, ap, ◌∙◌, true, false, List, [], ◌∷◌, ◌++◌, Option,
  none, some, Bool-cases, length,
}
use tgcontrib.Base.Int.{ℤ, pos, equal_ℤ_iff}
use tgcontrib.Base.Runes.{Runes, trim_space, byte_length}
use tgcontrib.Base.Text.{codes}
use tgcontrib.Auth.Ask.{
  Message, tos_title, tos_prompt, code_prompt, SentCode, not_flashing, AskError, answer_no, Asked,
  answer,
}
use tgcontrib.Auth.Terminal.{
  Line, line, no_line, Console, fits, misfit, Choice, accepts, declines, unclear, choice,
  accept_terms_of_service, after_title, unset_prompt, with_prompt, check_code, retry, code,
  decide_line, decide, accept_loop,
}

some_injective : {A : Type 0} {a b : A} → some a ≡ some b → a ≡ b
some_injective h = cc

module _ {T : Type 0} (console : Console T) (sprintf : Message → Runes) (sent : SentCode) where
  -- one question for the code
  abbrev pub ask_code : T → T × Line
  ask_code = with_prompt console sprintf (sprintf code_prompt ++ b':' ∷ [])

  -- The user gives answers that do not fit, and each is met by a message.
  abbrev pub Misses : List Runes → T → T → Type 0
  Misses [] t t' = t ≡ t'
  Misses (x ∷ xs) t t' =
      (t1 : T) × (t2 : T) × (ask_code t ≡ (t1, line x))
      × (fits sent (trim_space x) ≡ false)
      × (console.write (sprintf (misfit sent) ++ b'\n' ∷ []) t1 ≡ (t2, none))
      × Misses xs t2 t'

  -- Code of the terminal asks again for each answer that does not fit the code that was sent,
  -- where the message for it can be written, and returns the first one that fits without the
  -- white space round it; one question more than there were misses is enough.
  pub code_retries :
      (bad : List Runes) (x : Runes) (t t1 t2 : T)
      → Misses bad t t1
      → ask_code t1 ≡ (t2, line x)
      → fits sent (trim_space x) ≡ true
      → code console sprintf (suc (length bad)) sent t ≡ some (t2, answer (trim_space x))
  unfolding code check_code
  code_retries [] x t t1 t2 m r h =
      ap (check_code console sprintf (code console sprintf 0 sent) sent) (ap ask_code m ∙ r)
      ∙ rw h refl
  code_retries (b ∷ bad) x t t1 t2 (s1, s2, asked, wrong, told, m) r h =
      ap (check_code console sprintf (code console sprintf (suc (length bad)) sent) sent) asked
      ∙ rw wrong (
          ap (retry console sprintf (code console sprintf (suc (length bad)) sent)) told
          ∙ code_retries bad x s2 t1 t2 m r h)

  retry-fits :
      (again : T → Option (T × Asked Runes))
      → ((t t' : T) (c : Runes) → again t ≡ some (t', answer c) → fits sent c ≡ true)
      → (r : T × Option ℕ) (t' : T) (c : Runes)
      → retry console sprintf again r ≡ some (t', answer c)
      → fits sent c ≡ true
  unfolding retry
  retry-fits again ih (t, none) t' c h = ih t t' c h
  retry-fits again ih (t, some e) t' c h = cc

  check_code-fits :
      (again : T → Option (T × Asked Runes))
      → ((t t' : T) (c : Runes) → again t ≡ some (t', answer c) → fits sent c ≡ true)
      → (r : T × Line) (t' : T) (c : Runes)
      → check_code console sprintf again sent r ≡ some (t', answer c)
      → fits sent c ≡ true
  unfolding check_code
  check_code-fits again ih (t, no_line e) t' c h = cc
  check_code-fits again ih (t, line s) t' c h = elim (Bool-cases (fits sent (trim_space s))) [
    | inl e ↦ let same : trim_space s ≡ c = cc (rw e at h) in ap (fits sent) (sym same) ∙ e
    | inr e ↦ retry-fits again ih _ t' c (rw e at h)
  ]

  code_fits :
      (f : ℕ) (t t' : T) (c : Runes)
      → code console sprintf f sent t ≡ some (t', answer c)
      → fits sent c ≡ true
  unfolding code
  code_fits zero t t' c h = cc
  code_fits (suc f) t t' c h = check_code-fits (code console sprintf f sent) (code_fits f) _ t' c h

-- A code that the terminal returns has the length in bytes that Telegram asked for, where it
-- asked for one.
pub code-byte_length :
    {T : Type 0} (console : Console T) (sprintf : Message → Runes) (f : ℕ) (n : ℤ) (t t' : T)
    (c : Runes)
    → code console sprintf f (not_flashing n) t ≡ some (t', answer c)
    → pos (byte_length c) ≡ n
code-byte_length console sprintf f n t t' c h =
    (equal_ℤ_iff (pos (byte_length c)) n).0 (code_fits console sprintf (not_flashing n) f t t' c h)

module _ {T : Type 0} (console : Console T) (sprintf : Message → Runes) where
  -- Answers to the question for the terms that are neither yes nor no.
  abbrev pub Unclear : List Runes → T → T → Type 0
  Unclear [] t t' = t ≡ t'
  Unclear (x ∷ xs) t t' =
      (t1 : T) × (console.read_line t ≡ (t1, line x)) × (choice x ≡ unclear) × Unclear xs t1 t'

  -- What a clear answer makes of the terms.
  abbrev pub verdict : Choice → Option AskError
  verdict accepts = none
  verdict _ = some answer_no

  loop_verdict :
      (xs : List Runes) (x : Runes) (t t1 t2 : T)
      → Unclear xs t t1
      → console.read_line t1 ≡ (t2, line x)
      → ((choice x ≡ accepts) ⊎ (choice x ≡ declines))
      → accept_loop console sprintf (suc (length xs)) t ≡ some (t2, verdict (choice x))
  unfolding accept_loop decide_line decide
  loop_verdict [] x t t1 t2 u r (inl c) =
      ap (decide_line console sprintf (accept_loop console sprintf 0)) (ap console.read_line u ∙ r)
      ∙ rw c refl
  loop_verdict [] x t t1 t2 u r (inr c) =
      ap (decide_line console sprintf (accept_loop console sprintf 0)) (ap console.read_line u ∙ r)
      ∙ rw c refl
  loop_verdict (y ∷ xs) x t t1 t2 (s, asked, vague, u) r c =
      ap (decide_line console sprintf (accept_loop console sprintf (suc (length xs)))) asked
      ∙ rw vague (loop_verdict xs x s t1 t2 u r c)

  -- `AcceptTermsOfService` shows the terms and reads answers until one is yes or no, in any case of
  -- the letters: it accepts or reports the refusal, and clears the prompt.
  pub accept_verdict :
      (tos : Runes) (xs : List Runes) (x : Runes) (t0 t t1 t2 : T)
      → console.write (sprintf tos_title ++ (codes "\n\n" ++ tos)) t0 ≡ (t, none)
      → Unclear xs (console.set_prompt (sprintf tos_prompt ++ codes "(Y/N):") t) t1
      → console.read_line t1 ≡ (t2, line x)
      → ((choice x ≡ accepts) ⊎ (choice x ≡ declines))
      → accept_terms_of_service console sprintf (suc (length xs)) tos t0
        ≡ some (console.set_prompt [] t2, verdict (choice x))
  unfolding accept_terms_of_service after_title unset_prompt
  accept_verdict tos xs x t0 t t1 t2 w u r c =
      ap (after_title console sprintf (suc (length xs))) w
      ∙ ap (unset_prompt console sprintf) (loop_verdict xs x _ t1 t2 u r c)
