-- ===== src/Examples/Fakes.antt =====
-- utils/iptables/testing/fake_iptables.go at concrete inputs, after fake_iptables_test.go.
use kube_bazellb.Prelude.{
  Bool, true, false, Option, none, some, [], ◌∷◌, Str, codes, ◌≡◌, refl, str_eq, if◌then◌else◌,
}
use kube_bazellb.Net.{Net}
use kube_bazellb.Iptables.{prepend, append_position, table_nat}
use kube_bazellb.Iptables.Fake.{
  FakeIptables, Outcome, done, failed, panicked, no_chain, new_fake_iptables, ensure_chain,
  list_rule, save_into,
}
use kube_bazellb.Iptables.Fake.Rules.{ensure_rule_text, ensure_rule, delete_rule}
use kube_bazellb.Iptables.Fake.Restore.{restore}
use kube_bazellb.Examples.Servers.{texts}

-- One text is an address.
abbrev addresses : Net
addresses = record texts { parse = λ s. if str_eq s (codes "10.0.0.1") then s else [] }

-- The next call, in the state that this one leaves.
abbrev then_do : {A B : Type 0} → Outcome A → (FakeIptables → Outcome B) → Outcome B
then_do (done f a) next = next f
then_do (failed f e) next = failed f e
then_do panicked next = panicked

abbrev answer : {A : Type 0} → Outcome A → Option A
answer (done f a) = some a
answer (failed f e) = none
answer panicked = none

abbrev hostports : Str
hostports = codes "KUBE-HOSTPORTS"

abbrev postrouting : Str
postrouting = codes "POSTROUTING"

abbrev with_rules : Outcome Bool
unfolding new_fake_iptables ensure_chain ensure_rule_text str_eq
with_rules = then_do (ensure_chain table_nat hostports new_fake_iptables) (λ f.
    then_do
      (ensure_rule_text addresses append_position table_nat hostports (codes "-p tcp --dport 84") f)
      (ensure_rule_text addresses append_position table_nat postrouting
        (codes "-m comment --comment \"a b\" -s 127.0.0.0/8")))

abbrev saved : Str
saved = codes "*nat\n:KUBE-HOSTPORTS - [0:0]\n:POSTROUTING - [0:0]\nCOMMIT\n"

-- Restoring a table flushes the chains of users, and keeps the built-in ones.
restore_test :
    answer (
      then_do
        (then_do with_rules (restore addresses table_nat saved false true))
        (list_rule table_nat hostports []))
    ≡ some []
unfolding new_fake_iptables ensure_chain ensure_rule_text restore list_rule str_eq
restore_test = refl

keeps_builtin_test :
    answer (
      then_do
        (then_do with_rules (restore addresses table_nat saved false true))
        (list_rule table_nat postrouting []))
    ≡ some (codes "-m comment --comment \"a b\" -s 127.0.0.0/8" ∷ [])
unfolding new_fake_iptables ensure_chain ensure_rule_text restore list_rule str_eq
keeps_builtin_test = refl

-- The address is written back with its mask when the rule is added, and is not found without it.
delete_rule_test :
    answer (
      then_do
        (then_do
          (ensure_rule addresses prepend table_nat hostports
            (codes "-s" ∷ codes "10.0.0.1" ∷ [])
            new_fake_iptables)
          (delete_rule table_nat hostports (codes "-s" ∷ codes "10.0.0.1" ∷ [])))
        (list_rule table_nat hostports []))
    ≡ some (codes "-s 10.0.0.1/32" ∷ [])
unfolding new_fake_iptables ensure_rule delete_rule list_rule str_eq
delete_rule_test = refl

missing_test :
    list_rule table_nat (codes "X") [] new_fake_iptables
    ≡ failed new_fake_iptables (no_chain table_nat (codes "X"))
unfolding new_fake_iptables list_rule str_eq
missing_test = refl

empty_rule_test :
    ensure_rule addresses prepend table_nat postrouting [] new_fake_iptables ≡ panicked
unfolding new_fake_iptables ensure_rule str_eq
empty_rule_test = refl

save_test :
    answer (save_into table_nat [] new_fake_iptables)
    ≡ some (
        codes
          "*nat\n:INPUT - [0:0]\n:OUTPUT - [0:0]\n:POSTROUTING - [0:0]\n:PREROUTING - [0:0]\nCOMMIT\n")
unfolding new_fake_iptables save_into str_eq
save_test = refl
