-- ===== src/Iptables/Printed.antt =====
-- `checkRuleWithoutCheck` at a line of `-A`, a chain and words, with single spaces between them.
use kube_bazellb.Prelude.{
  ℕ, ◌≤◌, true, false, length, ◌≢◌, List, [], ◌∷◌, ◌++◌, Str, codes, str_eq, string_eq, eq_iff, map,
  append_assoc, append-nil, ◌≡◌, refl, ap, ◌∙◌, sym, arith,
}
use kube_bazellb.Text.{has_prefix, join, push_front}
use kube_bazellb.Text.Fields.{space_width, words, fields, non_empty}
use kube_bazellb.Iptables.Check.{unquoted, unpack_args, has_all, line_has_rule}

-- Visible ASCII only.
abbrev pub AllVisible : Str → Type 0
AllVisible [] = Unit
AllVisible (c ∷ s) = ((33 ≤ c) × (c ≤ 126)) × AllVisible s

-- One word: not empty, and visible.
abbrev pub IsWord : Str → Type 0
IsWord [] = ⊥
IsWord (c ∷ s) = AllVisible (c ∷ s)

-- Words with no quotes around them and no hexadecimal number in them that starts with a zero before
-- another digit.
abbrev pub ArePlain : List Str → Type 0
ArePlain [] = Unit
ArePlain (w ∷ ws) = (IsWord w × (unquoted w ≡ w)) × ArePlain ws

abbrev pub AreWords : List Str → Type 0
AreWords [] = Unit
AreWords (w ∷ ws) = IsWord w × AreWords ws

space_width-visible : (c : ℕ) (s : Str) → 33 ≤ c → c ≤ 126 → space_width (c ∷ s) ≡ 0
unfolding space_width
space_width-visible c [] h g = ground arith
space_width-visible c (a ∷ []) h g = ground arith
space_width-visible c (a ∷ b ∷ s) h g = ground arith

words-visible : (c : ℕ) (s : Str) → 33 ≤ c → c ≤ 126 → words 0 (c ∷ s) ≡ push_front c (words 0 s)
unfolding words
words-visible c s h g = ground (arith, space_width-visible c s h g)

space_width-space : (s : Str) → space_width (b' ' ∷ s) ≡ 1
unfolding space_width
space_width-space [] = refl
space_width-space (a ∷ []) = refl
space_width-space (a ∷ b ∷ s) = refl

words-space : (s : Str) → words 0 (b' ' ∷ s) ≡ [] ∷ words 0 s
unfolding words
words-space s = ground (arith, space_width-space s)

words_zero-nil : words 0 [] ≡ [] ∷ []
unfolding words
words_zero-nil = refl

words-word : (w s : Str) → AllVisible w → words 0 (w ++ b' ' ∷ s) ≡ w ∷ words 0 s
words-word [] s h = words-space s
words-word (c ∷ w) s h =
    words-visible c (w ++ b' ' ∷ s) h.0.0 h.0.1 ∙ ap (push_front c) (words-word w s h.1)

words-last : (w : Str) → AllVisible w → words 0 w ≡ w ∷ []
words-last [] h = words_zero-nil
words-last (c ∷ w) h = words-visible c w h.0.0 h.0.1 ∙ ap (push_front c) (words-last w h.1)

abbrev space : Str
space = b' ' ∷ []

non_empty-word : (w : Str) (ws : List Str) → IsWord w → non_empty (w ∷ ws) ≡ w ∷ non_empty ws
unfolding str_eq
non_empty-word [] ws h = absurd h
non_empty-word (c ∷ w) ws h = refl

word-AllVisible : (w : Str) → IsWord w → AllVisible w
word-AllVisible [] h = tt
word-AllVisible (c ∷ w) h = h

-- Words printed with spaces between them are split into the words.
fields-join : (w : Str) (ws : List Str) → AreWords (w ∷ ws) → fields (join space (w ∷ ws)) ≡ w ∷ ws
unfolding fields join
fields-join w [] h = ap non_empty (words-last w (word-AllVisible w h.0)) ∙ non_empty-word w [] h.0
fields-join w (v ∷ ws) h =
    ap non_empty (words-word w (join space (v ∷ ws)) (word-AllVisible w h.0))
    ∙ non_empty-word w (words 0 (join space (v ∷ ws))) h.0
    ∙ ap (λ l. w ∷ l) (fields-join v ws h.1)

plain-AreWords : (ws : List Str) → ArePlain ws → AreWords ws
plain-AreWords [] h = tt
plain-AreWords (w ∷ ws) h = (h.0.0, plain-AreWords ws h.1)

map-unquoted : (ws : List Str) → ArePlain ws → map unquoted ws ≡ ws
map-unquoted [] h = refl
map-unquoted (w ∷ ws) h = ground (arith, h.0.1, map-unquoted ws h.1)

fields_word : (w : Str) → IsWord w → fields w ≡ w ∷ []
unfolding join
fields_word w h = fields-join w [] (h, tt)

unpack_args-plain : (ws : List Str) → ArePlain ws → unpack_args ws ≡ ws
unfolding unpack_args
unpack_args-plain [] h = refl
unpack_args-plain (w ∷ ws) h =
    ap (λ v. fields v ++ unpack_args ws) h.0.1
    ∙ ap (λ l. l ++ unpack_args ws) (fields_word w h.0.0)
    ∙ ap (λ l. w ∷ l) (unpack_args-plain ws h.1)

has_all-more :
    (t : Str) (ts args : List Str) → has_all ts args ≡ true → has_all (t ∷ ts) args ≡ true
has_all-more t ts [] h = refl
has_all-more t ts (a ∷ args) h = ground (arith, h, has_all-more t ts args)

has_all_self : (ws : List Str) → has_all ws ws ≡ true
has_all_self [] = refl
has_all_self (w ∷ ws) = ground (arith, eq_iff w w, has_all-more w ws ws (has_all_self ws))

has_prefix-append : (s t : Str) → has_prefix (s ++ t) s ≡ true
unfolding has_prefix
has_prefix-append [] t = refl
has_prefix-append (c ∷ s) t = ground (arith, has_prefix-append s t)

join-head : (w : Str) (ws : List Str) → (t : Str) × (join space (w ∷ ws) ≡ w ++ t)
unfolding join
join-head w [] = ([], sym (append-nil w))
join-head w (v ∷ ws) = (b' ' ∷ join space (v ∷ ws), refl)

-- A line of `-A`, a chain and the words of a rule.
abbrev pub rule_line : Str → List Str → Str
rule_line chain args = join space (codes "-A" ∷ chain ∷ args)

starts_right :
    (chain more : Str) (args : List Str)
    → has_prefix (rule_line (chain ++ more) args) (codes "-A " ++ chain) ≡ true
unfolding join
starts_right chain more args =
    let (t, e) = join-head (chain ++ more) args in
    ap (λ s. has_prefix (codes "-A " ++ s) (codes "-A " ++ chain)) (e ∙ append_assoc chain more t)
    ∙ has_prefix-append (codes "-A " ++ chain) (more ++ t)

dash_a : IsWord (codes "-A")
dash_a = ground arith

own_words :
    (chain more : Str) (args : List Str)
    → IsWord (chain ++ more)
    → ArePlain args
    → line_has_rule chain (unpack_args args) (rule_line (chain ++ more) args) ≡ true
unfolding line_has_rule
own_words chain more args named plain =
    let parts =
      fields-join (codes "-A") ((chain ++ more) ∷ args)
        (dash_a, (named, plain-AreWords args plain)) in
    let starts = starts_right chain more args in
    let found =
      has_all-more (unquoted (codes "-A")) (unquoted (chain ++ more) ∷ args) args
        (has_all-more (unquoted (chain ++ more)) args args (has_all_self args)) in
    rw (unpack_args-plain args plain, parts)
      (ground (arith, starts, map-unquoted args plain, found))

other_count :
    (chain more : Str) (args words : List Str)
    → IsWord (chain ++ more)
    → ArePlain args
    → AreWords words
    → length words ≢ length args
    → line_has_rule chain (unpack_args args) (rule_line (chain ++ more) words) ≡ false
unfolding line_has_rule
other_count chain more args words named plain are other =
    let parts = fields-join (codes "-A") ((chain ++ more) ∷ words) (dash_a, (named, are)) in
    rw (unpack_args-plain args plain, parts) (ground (arith, other))

-- In a line of -A, a chain and words with single spaces between them, the check without the check
-- flag finds a rule whose arguments are exactly those words, when they are visible ASCII without
-- quotes around them or superfluous zeros; it finds it just as well where the name of the chain
-- only goes on from the one asked for, and never where the number of words is another one.
pub line_has_rule-extended :
    (chain more : Str) (args words : List Str)
    → IsWord (chain ++ more)
    → ArePlain args
    → AreWords words
    → length words ≢ length args
    → (line_has_rule chain (unpack_args args) (rule_line (chain ++ more) args) ≡ true)
      × (line_has_rule chain (unpack_args args) (rule_line (chain ++ more) words) ≡ false)
line_has_rule-extended chain more args words named plain are other =
    (own_words chain more args named plain, other_count chain more args words named plain are other)
