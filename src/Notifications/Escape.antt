-- ===== src/Notifications/Escape.antt =====
-- Escaping a text for a mail.
use ndy_hub.Common.{
  ℕ, List, [], ◌∷◌, ◌++◌, ◌==◌, if◌then◌else◌, Bool-cases, ==_iff, ◌≡◌, refl, sym, ap, ◌∙◌, inl,
  inr, arith,
}
use mathlib.Core.List
use ndy_hub.Common.Chars.{codes}
use ndy_hub.Notifications.{replace_all, amp, quote, less, greater, escape_html}

-- What one character becomes.
abbrev pub entity : ℕ → List ℕ
entity c =
    if c == amp
    then codes "&amp;"
    else if c == less
    then codes "&lt;"
    else if c == greater
    then codes "&gt;"
    else if c == quote
    then codes "&quot;"
    else c ∷ []

-- Each character of the text once.
pub escape_once : List ℕ → List ℕ
escape_once [] = []
escape_once (c ∷ s) = entity c ++ escape_once s

replace_all-append :
    (c : ℕ) (e s t : List ℕ) → replace_all c e (s ++ t) ≡ replace_all c e s ++ replace_all c e t
unfolding replace_all
replace_all-append c e [] t = refl
replace_all-append c e (d ∷ s) t = elim (Bool-cases (d == c)) [
  | inl hit ↦
      rw (hit, replace_all-append c e s t)
        (sym (List.append_assoc e (replace_all c e s) (replace_all c e t)))
  | inr miss ↦ ground (arith, miss, replace_all-append c e s t)
]

escape_html-append : (s t : List ℕ) → escape_html (s ++ t) ≡ escape_html s ++ escape_html t
escape_html-append s t =
    let a = replace_all amp (codes "&amp;") in
    let l = replace_all less (codes "&lt;") in
    let g = replace_all greater (codes "&gt;") in
    rw
      (
        replace_all-append amp (codes "&amp;") s t,
        replace_all-append less (codes "&lt;") (a s) (a t),
        replace_all-append greater (codes "&gt;") (l (a s)) (l (a t)),
      )
      (replace_all-append quote (codes "&quot;") (g (l (a s))) (g (l (a t))))

escape_html-entity : (c : ℕ) → escape_html (c ∷ []) ≡ entity c
unfolding replace_all
escape_html-entity c = elim (Bool-cases (c == amp)) [
  | inl e ↦ let same : c ≡ amp = (==_iff c amp).0 e in rw same refl
  | inr not_amp ↦ elim (Bool-cases (c == less)) [
    | inl e ↦ let same : c ≡ less = (==_iff c less).0 e in rw same refl
    | inr not_less ↦ elim (Bool-cases (c == greater)) [
      | inl e ↦ let same : c ≡ greater = (==_iff c greater).0 e in rw same refl
      | inr not_greater ↦ elim (Bool-cases (c == quote)) [
        | inl e ↦ let same : c ≡ quote = (==_iff c quote).0 e in rw same refl
        | inr not_quote ↦ rw (not_amp, not_less, not_greater, not_quote) refl
      ]
    ]
  ]
]

-- The four replacements in a row give each character its entity once: none of them touches what
-- another has written.
pub escape_html-escape_once : (s : List ℕ) → escape_html s ≡ escape_once s
unfolding escape_once replace_all
escape_html-escape_once [] = refl
escape_html-escape_once (c ∷ s) =
    escape_html-append (c ∷ []) s
    ∙ (ap (λ k. k ++ escape_html s) (escape_html-entity c)
        ∙ ap (λ k. entity c ++ k) (escape_html-escape_once s))
