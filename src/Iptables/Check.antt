-- ===== src/Iptables/Check.antt =====
-- utils/iptables/iptables.go, `checkRuleWithoutCheck`: a rule looked for in the output of iptables-save.
use kube_bazellb.Prelude.{
  ℕ, zero, suc, ◌+◌, Bool, true, false, ◌&&◌, Option, none, some, List, [], ◌∷◌, ◌++◌, Str, codes,
  leb, nat_beq, if◌then◌else◌, length, map, ◌≡◌, refl, string_eq, str_eq,
}
use kube_bazellb.Prelude.Members.{has}
use kube_bazellb.Text.{is_digit, has_prefix}
use kube_bazellb.Text.Trim.{trim}
use kube_bazellb.Text.Fields.{fields}

-- `strings.Trim(s, "\"")`
abbrev pub is_quote : ℕ → Bool
is_quote c = nat_beq c 34

-- A match that ends in zeros alone: the last of them is its digit.
abbrev zeros_end : ℕ → Option (ℕ × ℕ)
zeros_end n = if leb 2 n then some (b'0', n + 1) else none

-- Behind `0x` and `n` zeros, of which there is at least one: the digit of the match, and the number of
-- bytes that the match takes behind its first.
unfoldable pub zeros_then : ℕ → Str → Option (ℕ × ℕ)
unfolding is_digit
zeros_then n [] = zeros_end n
zeros_then n (c ∷ s) =
    let more = zeros_then (suc n) s in
    if nat_beq c b'0' then more else if is_digit c then some (c, n + 2) else zeros_end n

-- `0x0+([0-9])` at the front of a text.
abbrev match_hex : Str → Option (ℕ × ℕ)
match_hex [] = none
match_hex (a ∷ []) = none
match_hex (a ∷ b ∷ []) = none
match_hex (a ∷ b ∷ c ∷ s) =
    if nat_beq a b'0' && nat_beq b b'x' && nat_beq c b'0' then zeros_then 1 s else none

-- The replacement of all matches, from behind `skip` more bytes of the last one.
unfoldable pub trimhex_from : ℕ → Str → Str
unfolding zeros_then
trimhex_from skip [] = []
trimhex_from (suc skip) (c ∷ s) = trimhex_from skip s
trimhex_from zero (c ∷ s) = elim (match_hex (c ∷ s)) [
  | none ↦ c ∷ trimhex_from zero s
  | some (digit, skip) ↦ b'0' ∷ b'x' ∷ digit ∷ trimhex_from skip s
]

unfoldable pub trimhex : Str → Str
unfolding trimhex_from
trimhex s = trimhex_from 0 s

abbrev pub unquoted : Str → Str
unquoted s = trimhex (trim is_quote s)

unfoldable pub unpack_args : List Str → List Str
unfolding trim trimhex fields
unpack_args [] = []
unpack_args (arg ∷ args) = fields (unquoted arg) ++ unpack_args args

-- `sets.NewString(texts...).IsSuperset(sets.NewString(args...))`
abbrev pub has_all : List Str → List Str → Bool
has_all texts [] = true
has_all texts (arg ∷ args) = has arg texts && has_all texts args

unfoldable pub line_has_rule : Str → List Str → Str → Bool
unfolding has_prefix trim trimhex fields
line_has_rule chain args_copy line =
    let parts = fields line in
    has_prefix line (codes "-A " ++ chain)
    && nat_beq (length parts) (length args_copy + 2)
    && has_all (map unquoted parts) args_copy

unfoldable pub lines_have_rule : Str → List Str → List Str → Bool
unfolding line_has_rule
lines_have_rule chain args_copy [] = false
lines_have_rule chain args_copy (line ∷ lines) =
    let rest = lines_have_rule chain args_copy lines in
    if line_has_rule chain args_copy line then true else rest

trimhex_test : trimhex (codes "0x00004000/0x000 0x0 0x00a") ≡ codes "0x4000/0x0 0x0 0x0a"
unfolding trimhex
trimhex_test = refl

quoted_test :
    lines_have_rule
      (codes "OUT")
      (unpack_args (codes "-m" ∷ codes "\"two words\"" ∷ codes "0x04" ∷ []))
      (codes "-A OUT -m \"two words\" 0x4" ∷ [])
    ≡ true
unfolding lines_have_rule unpack_args str_eq
quoted_test = refl
