-- ===== src/Supervisor/ConsoleText.antt =====
-- What a console line becomes before it is kept or shown: SanitizeLine and escapeLength of
-- source/internal/supervisor/console_text.go. A line is a list of bytes; the text that is built is a
-- list of code points.
use bonghos.Base.{
  ℕ, zero, suc, ◌+◌, ◌-◌, ◌*◌, Bool, false, ◌&&◌, ◌||◌, [], ◌∷◌, ◌++◌, if◌then◌else◌, ltb, leb, eqb,
  length, take,
}
use bonghos.Base.Text.{Text, codes}

abbrev pub max_line_runes : ℕ
max_line_runes = 4000

-- utf8.RuneError
abbrev pub rune_error : ℕ
rune_error = 0xfffd

abbrev pub escape : ℕ
escape = 0x1b

abbrev between : ℕ → ℕ → ℕ → Bool
between low high c = leb low c && leb c high

abbrev continues : ℕ → Bool
continues c = between 0x80 0xbf c

-- What a two-, three- or four-byte sequence stands for, when its bytes are right.
decode_two : ℕ → Text → ℕ × ℕ
decode_two c (d ∷ rest) = if continues d then ((c - 0xc0) * 64 + (d - 0x80), 2) else (rune_error, 1)
decode_two c _ = (rune_error, 1)

decode_three : ℕ → ℕ → ℕ → Text → ℕ × ℕ
decode_three low high c (d ∷ e ∷ rest) =
    if between low high d && continues e
    then ((c - 0xe0) * 4096 + (d - 0x80) * 64 + (e - 0x80), 3)
    else (rune_error, 1)
decode_three low high c _ = (rune_error, 1)

decode_four : ℕ → ℕ → ℕ → Text → ℕ × ℕ
decode_four low high c (d ∷ e ∷ f ∷ rest) =
    if between low high d && (continues e && continues f)
    then ((c - 0xf0) * 262144 + (d - 0x80) * 4096 + (e - 0x80) * 64 + (f - 0x80), 4)
    else (rune_error, 1)
decode_four low high c _ = (rune_error, 1)

-- utf8.DecodeRuneInString: the first code point and how many bytes it takes.
unfoldable pub decode_rune : Text → ℕ × ℕ
unfolding decode_two decode_three decode_four
decode_rune [] = (rune_error, 0)
decode_rune (c ∷ rest) =
    if ltb c 0x80
    then (c, 1)
    else if between 0xc2 0xdf c
    then decode_two c rest
    else if eqb c 0xe0
    then decode_three 0xa0 0xbf c rest
    else if eqb c 0xed
    then decode_three 0x80 0x9f c rest
    else if between 0xe1 0xef c
    then decode_three 0x80 0xbf c rest
    else if eqb c 0xf0
    then decode_four 0x90 0xbf c rest
    else if eqb c 0xf4
    then decode_four 0x80 0x8f c rest
    else if between 0xf1 0xf3 c
    then decode_four 0x80 0xbf c rest
    else (rune_error, 1)

-- unicode.Cf
unfoldable pub is_format : ℕ → Bool
is_format r =
    eqb r 0xad
    || (between 0x600 0x605 r
        || (eqb r 0x61c
            || (eqb r 0x6dd
                || (eqb r 0x70f
                    || (between 0x890 0x891 r
                        || (eqb r 0x8e2
                            || (eqb r 0x180e
                                || (between 0x200b 0x200f r
                                    || (between 0x202a 0x202e r
                                        || (between 0x2060 0x2064 r
                                            || (between 0x2066 0x206f r
                                                || (eqb r 0xfeff
                                                    || (between 0xfff9 0xfffb r
                                                        || (eqb r 0x110bd
                                                            || (eqb r 0x110cd
                                                            || (between 0x13430 0x1343f r
                                                            || (between 0x1bca0 0x1bca3 r
                                                            || (between 0x1d173 0x1d17a r
                                                            || (eqb r 0xe0001
                                                            || between 0xe0020 0xe007f
                                                            r)))))))))))))))))))

abbrev starts_with : ℕ → Text → Bool
starts_with c [] = false
starts_with c (d ∷ rest) = eqb c d

-- The loops of escapeLength: the index behind the end of the sequence, from the bytes at index `i`.
unfoldable pub csi_end : ℕ → Text → ℕ
csi_end i [] = i
csi_end i (c ∷ rest) = if between 0x40 0x7e c then i + 1 else csi_end (i + 1) rest

unfoldable pub osc_end : ℕ → Text → ℕ
osc_end i [] = i
osc_end i (c ∷ rest) =
    if eqb c 0x07
    then i + 1
    else if eqb c escape && starts_with b'\\' rest
    then i + 2
    else osc_end (i + 1) rest

unfoldable pub string_end : ℕ → Text → ℕ
string_end i [] = i
string_end i (c ∷ rest) =
    if eqb c escape && starts_with b'\\' rest then i + 2 else string_end (i + 1) rest

unfoldable pub charset_end : Text → ℕ
charset_end [] = 2
charset_end (c ∷ rest) = 3

sequence_length : ℕ → Text → ℕ
unfolding csi_end osc_end string_end charset_end
sequence_length c rest =
    if eqb c b'['
    then csi_end 2 rest
    else if eqb c b']'
    then osc_end 2 rest
    else if eqb c b'P' || (eqb c b'^' || eqb c b'_')
    then string_end 2 rest
    else if eqb c b'(' || (eqb c b')' || (eqb c b'*' || eqb c b'+'))
    then charset_end rest
    else 2

-- escapeLength
unfoldable pub escape_length : Text → ℕ
unfolding sequence_length
escape_length (first ∷ c ∷ rest) = if eqb first escape then sequence_length c rest else 0
escape_length _ = 0

-- What the switch does at a position: how many bytes it passes, and what it does to the text built.
pub data Action : Type 0 where
  pass : ℕ → Action
  reset : ℕ → Action
  write : ℕ → ℕ → Action

unfoldable pub act_on : ℕ → ℕ → Text → Action
unfolding is_format
act_on r size s =
    if eqb r escape
    then (if ltb 0 (escape_length s) then pass (escape_length s) else pass size)
    else if eqb r 13
    then reset size
    else if eqb r 9
    then write b' ' size
    else if eqb r rune_error && eqb size 1
    then pass 1
    else if ltb r 0x20 || eqb r 0x7f
    then pass size
    else if is_format r
    then pass size
    else write r size

unfoldable pub action : Text → Action
unfolding act_on
action s = act_on (decode_rune s).0 (decode_rune s).1 s

abbrev pub passed : Action → ℕ
passed (pass n) = n
passed (reset n) = n
passed (write r n) = n

abbrev pub built : Action → Text → Text
built (pass n) out = out
built (reset n) out = []
built (write r n) out = out ++ r ∷ []

-- The loop, byte by byte: `skip` bytes belong to what was decoded before.
unfoldable pub walk : ℕ → Text → Text → Text
walk skip [] out = out
walk (suc skip) (c ∷ rest) out = walk skip rest out
walk zero (c ∷ rest) out =
    walk (passed (action (c ∷ rest)) - 1) rest (built (action (c ∷ rest)) out)

unfoldable pub keep_space : ℕ → Text → Text
keep_space r [] = if eqb r b' ' then [] else r ∷ []
keep_space r (x ∷ xs) = r ∷ x ∷ xs

-- strings.TrimRight with a space
unfoldable pub trim_right_spaces : Text → Text
unfolding keep_space
trim_right_spaces [] = []
trim_right_spaces (r ∷ rs) = keep_space r (trim_right_spaces rs)

-- The end of SanitizeLine.
unfoldable pub capped : Text → Text
capped out =
    if ltb max_line_runes (length out)
    then take max_line_runes out ++ codes " …[truncated]"
    else out

-- SanitizeLine
unfoldable pub sanitize_line : Text → Text
unfolding walk trim_right_spaces capped
sanitize_line line = capped (trim_right_spaces (walk 0 line []))
