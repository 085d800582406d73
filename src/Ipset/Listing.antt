-- ===== src/Ipset/Listing.antt =====
-- utils/ipset/ipset.go, `ListEntries`: the members behind any header are the entries.
use kube_bazellb.Prelude.{
  false, some, none, List, [], ◌∷◌, ◌++◌, Str, codes, str_eq, string_eq, ◌≡◌, refl, ◌∙◌, arith,
}
use kube_bazellb.Prelude.Members.{has, has-append}
use kube_bazellb.Prelude.{eq_refl}
use kube_bazellb.Text.{split, join}
use kube_bazellb.Text.Split.{AllLack, split-join}
use kube_bazellb.Ipset.Runner.{after_members, read_entries}
use kube_bazellb.Text.Fields.{non_empty}

after_members-none :
    (l : Str) (ls : List Str)
    → has (codes "Members:") (l ∷ ls) ≡ false
    → after_members (l ∷ ls) ≡ none
unfolding after_members
after_members-none l [] h = refl
after_members-none l (m ∷ ls) h = ground (arith, after_members-none m ls)

-- Header lines, the line of the members, and the lines behind it.
after_members-header :
    (header : List Str) (l : Str) (ls : List Str)
    → has (codes "Members:") (l ∷ ls) ≡ false
    → after_members (header ++ codes "Members:" ∷ l ∷ ls) ≡ some (l ∷ ls)
unfolding after_members
after_members-header [] l ls h =
    ground (arith, after_members-none l ls h, eq_refl (codes "Members:"))
after_members-header (x ∷ []) l ls h = ground (arith, after_members-header [] l ls h)
after_members-header (x ∷ y ∷ header) l ls h =
    ground (arith, after_members-header (y ∷ header) l ls h)

non_empty-append : (ls : List Str) → has [] ls ≡ false → non_empty (ls ++ [] ∷ []) ≡ ls
unfolding str_eq
non_empty-append [] h = refl
non_empty-append (l ∷ ls) h = ground (arith, non_empty-append ls)

-- `ipset list`: a line for each header and entry, each ended by a line feed.
abbrev pub listed : List Str → List Str → List Str
listed header entries = header ++ (codes "Members:" ∷ (entries ++ [] ∷ []))

lines-read :
    (lines found entries : List Str)
    → split 10 (join (10 ∷ []) lines) ≡ lines
    → after_members lines ≡ some found
    → non_empty found ≡ entries
    → read_entries (join (10 ∷ []) lines) ≡ entries
unfolding read_entries
lines-read lines found entries parts after rest = ground (arith, parts, after, rest)

split-listed :
    (header entries : List Str)
    → AllLack 10 (listed header entries)
    → split 10 (join (10 ∷ []) (listed header entries)) ≡ listed header entries
split-listed [] entries h = split-join 10 (codes "Members:") (entries ++ [] ∷ []) h
split-listed (x ∷ header) entries h = split-join 10 x (listed header entries) h

after-listed :
    (header entries : List Str)
    → has (codes "Members:") entries ≡ false
    → after_members (listed header entries) ≡ some (entries ++ [] ∷ [])
unfolding str_eq
after-listed header [] h = after_members-header header [] [] refl
after-listed header (l ∷ ls) h =
    after_members-header header l (ls ++ [] ∷ [])
      (has-append (codes "Members:") (l ∷ ls) ([] ∷ []) ∙ ground (arith, h))

-- From an output of header lines, the line of members and one line for each entry, ListEntries
-- reads exactly the entries, in order, when no line holds a line feed and no entry is empty or
-- spells the line of members.
pub read_entries-listed :
    (header entries : List Str)
    → AllLack 10 (listed header entries)
    → has [] entries ≡ false
    → has (codes "Members:") entries ≡ false
    → read_entries (join (10 ∷ []) (listed header entries)) ≡ entries
read_entries-listed header entries lines full members =
    lines-read (listed header entries) (entries ++ [] ∷ []) entries
      (split-listed header entries lines) (after-listed header entries members)
      (non_empty-append entries full)
