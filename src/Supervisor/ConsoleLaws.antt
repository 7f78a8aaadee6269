-- ===== src/Supervisor/ConsoleLaws.antt =====
-- What SanitizeLine of console_text.go keeps and drops.
use bonghos.Base.{
  ℕ, suc, ◌+◌, ◌-◌, ◌≤◌, ◌<◌, ◌≡◌, refl, sym, ap, ◌∙◌, true, ◌&&◌, [], ◌∷◌, ◌++◌, leb, All, length,
  arith,
}
use bonghos.Base.Text.{Text}
use bonghos.Supervisor.ConsoleText.{
  max_line_runes, escape, decode_rune, is_format, csi_end, escape_length, Action, pass, reset,
  write, act_on, action, passed, built, walk, trim_right_spaces, capped, sanitize_line,
}

-- A printable byte of ASCII.
abbrev pub Plain : ℕ → Type 0
Plain c = (0x20 ≤ c) × (c < 0x7f)

-- A byte within a control sequence, before its last one.
abbrev pub Parameter : ℕ → Type 0
Parameter c = (c < 0x40)

plain_decode : (c : ℕ) (rest : Text) → c < 0x7f → decode_rune (c ∷ rest) ≡ (c, 1)
unfolding decode_rune
plain_decode c rest h = ground arith

action-Plain : (c : ℕ) (rest : Text) → Plain c → action (c ∷ rest) ≡ write c 1
unfolding action act_on is_format
action-Plain c rest p = rw (plain_decode c rest p.1) (ground arith)

append-nil : (xs : Text) → xs ++ [] ≡ xs
append-nil [] = refl
append-nil (x ∷ xs) = ap (λ ys. x ∷ ys) (append-nil xs)

append-snoc : (xs : Text) (x : ℕ) (ys : Text) → (xs ++ x ∷ []) ++ ys ≡ xs ++ x ∷ ys
append-snoc [] x ys = refl
append-snoc (y ∷ xs) x ys = ap (λ zs. y ∷ zs) (append-snoc xs x ys)

walk_at :
    (c : ℕ) (rest out : Text) (a : Action)
    → action (c ∷ rest) ≡ a
    → walk 0 (c ∷ rest) out ≡ walk (passed a - 1) rest (built a out)
unfolding walk
walk_at c rest out a e = ap (λ b. walk (passed b - 1) rest (built b out)) e

-- Plain bytes are copied, whatever comes behind them.
walk-Plain :
    (pre rest out : Text) → All Plain pre → walk 0 (pre ++ rest) out ≡ walk 0 rest (out ++ pre)
walk-Plain [] rest out h = rw (append-nil out) refl
walk-Plain (c ∷ pre) rest out h =
    walk_at c (pre ++ rest) out (write c 1) (action-Plain c (pre ++ rest) h.0)
    ∙ (walk-Plain pre rest (out ++ c ∷ []) h.1 ∙ ap (walk 0 rest) (append-snoc out c pre))

csi_end-lem :
    (i : ℕ) (ps : Text) (f : ℕ) (rest : Text)
    → All Parameter ps
    → leb 0x40 f && leb f 0x7e ≡ true
    → csi_end i (ps ++ f ∷ rest) ≡ suc (i + length ps)
unfolding csi_end
csi_end-lem i [] f rest h k = rw k (omega arith)
csi_end-lem i (p ∷ ps) f rest h k = let e = csi_end-lem (i + 1) ps f rest h.1 k in ground arith

skip-csi :
    (ps : Text) (f : ℕ) (rest out : Text)
    → walk (suc (length ps)) (ps ++ f ∷ rest) out ≡ walk 0 rest out
unfolding walk
skip-csi [] f rest out = refl
skip-csi (p ∷ ps) f rest out = skip-csi ps f rest out

action-escape :
    (s : Text)
    → 0 < escape_length (escape ∷ s)
    → action (escape ∷ s) ≡ pass (escape_length (escape ∷ s))
unfolding action act_on
action-escape s h = rw (plain_decode escape s (omega arith)) (ground arith)

walk-csi :
    (ps : Text) (f : ℕ) (rest out : Text)
    → All Parameter ps
    → leb 0x40 f && leb f 0x7e ≡ true
    → walk 0 (escape ∷ b'[' ∷ (ps ++ f ∷ rest)) out ≡ walk 0 rest out
walk-csi ps f rest out h k =
    let n : escape_length (escape ∷ b'[' ∷ (ps ++ f ∷ rest)) ≡ suc (2 + length ps) =
      unfold escape_length in csi_end-lem 2 ps f rest h k in
    let a : action (escape ∷ b'[' ∷ (ps ++ f ∷ rest)) ≡ pass (suc (2 + length ps)) =
      action-escape (b'[' ∷ (ps ++ f ∷ rest)) (omega (arith, n)) ∙ ap pass n in
    let less : suc (2 + length ps) - 1 ≡ suc (suc (length ps)) = omega arith in
    walk_at escape (b'[' ∷ (ps ++ f ∷ rest)) out (pass (suc (2 + length ps))) a
    ∙ (ap (λ n. walk n (b'[' ∷ (ps ++ f ∷ rest)) out) less
        ∙ (unfold walk in skip-csi ps f rest out))

-- A control sequence of the form ESC [ parameters final, behind printable ASCII, leaves no trace: the
-- line reads as if it had not been written.
pub sanitize_line-csi :
    (pre ps : Text) (f : ℕ) (rest : Text)
    → All Plain pre
    → All Parameter ps
    → leb 0x40 f && leb f 0x7e ≡ true
    → sanitize_line (pre ++ (escape ∷ b'[' ∷ (ps ++ f ∷ rest))) ≡ sanitize_line (pre ++ rest)
unfolding sanitize_line
sanitize_line-csi pre ps f rest h k m =
    ap (λ out. capped (trim_right_spaces out))
      (walk-Plain pre (escape ∷ b'[' ∷ (ps ++ f ∷ rest)) [] h
        ∙ (walk-csi ps f rest pre k m ∙ sym (walk-Plain pre rest [] h)))

return_action : (rest : Text) → action (13 ∷ rest) ≡ reset 1
unfolding action act_on
return_action rest = rw (plain_decode 13 rest (omega arith)) refl

-- A carriage return behind printable ASCII takes away what the line had: only what comes behind it is
-- shown.
pub sanitize_line-return :
    (pre rest : Text) → All Plain pre → sanitize_line (pre ++ 13 ∷ rest) ≡ sanitize_line rest
unfolding sanitize_line
sanitize_line-return pre rest h =
    ap (λ out. capped (trim_right_spaces out)) (walk-Plain pre (13 ∷ rest) [] h ∙ back)
  where
    back : walk 0 (13 ∷ rest) pre ≡ walk 0 rest []
    back = unfold walk in rw (return_action rest) refl

-- The last code point is not a space.
abbrev NoEndSpace : Text → Type 0
NoEndSpace xs = trim_right_spaces xs ≡ xs

-- A line of printable ASCII that does not end with a space and is at most 4000 long is kept as it is.
pub sanitize_line-Plain :
    (line : Text)
    → All Plain line
    → NoEndSpace line
    → length line ≤ max_line_runes
    → sanitize_line line ≡ line
unfolding sanitize_line capped
sanitize_line-Plain line h e n =
    let w : walk 0 line [] ≡ line =
      ap (λ x. walk 0 x []) (sym (append-nil line)) ∙ walk-Plain line [] [] h in
    rw (w, e) (ground arith)
