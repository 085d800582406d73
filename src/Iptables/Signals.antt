-- ===== src/Iptables/Signals.antt =====
-- utils/iptables/iptables.go: the listener for the signals of firewalld. `Bus` stands for the connection
-- to D-Bus, over a state `S` of the system; a value of a signal that is not a string is `none`.
use kube_bazellb.Prelude.{
  Bool, true, false, Option, none, some, List, [], ◌∷◌, ◌++◌, Str, codes, str_eq, if◌then◌else◌,
}
use kube_bazellb.Text.{contains}

pub record Bus (S : Type 0) : Type 0 where
  pub system_bus : S → S × Bool
  pub bus_call : Str → Str → S → S
  pub call : Str → Str → Str → S → S
  -- Registers the channel of the runner, or takes it away when it is there.
  pub signal : S → S

pub record Signal : Type 0 where
  pub name : Str
  pub body : List (Option Str)

abbrev pub firewalld_name : Str
firewalld_name = codes "org.fedoraproject.FirewallD1"

abbrev pub firewalld_path : Str
firewalld_path = codes "/org/fedoraproject/FirewallD1"

abbrev pub firewalld_interface : Str
firewalld_interface = codes "org.fedoraproject.FirewallD1"

abbrev add_match : Str
add_match = codes "org.freedesktop.DBus.AddMatch"

abbrev reloaded_rule : Str
reloaded_rule =
    codes "type='signal',sender='"
    ++ firewalld_name
    ++ codes "',path='"
    ++ firewalld_path
    ++ codes "',interface='"
    ++ firewalld_interface
    ++ codes "',member='Reloaded'"

abbrev owner_rule : Str
owner_rule =
    codes "type='signal',interface='org.freedesktop.DBus',member='NameOwnerChanged',"
    ++ codes "path='/org/freedesktop/DBus',sender='org.freedesktop.DBus',arg0='"
    ++ firewalld_name
    ++ codes "'"

module _ {S : Type 0} where
  unfoldable pub reload : List (S → S) → S → S
  reload [] s = s
  reload (f ∷ reload_funcs) s = reload reload_funcs (f s)

  unfoldable pub add_reload_func : (S → S) → List (S → S) → List (S → S)
  add_reload_func f reload_funcs = reload_funcs ++ f ∷ []

-- `s.Body[0].(string)` and `s.Body[2].(string)`; `none` is a panic.
abbrev owner_change : List (Option Str) → Option (Str × Str)
owner_change (some name ∷ old ∷ some new_owner ∷ rest) = some (name, new_owner)
owner_change (name ∷ old ∷ none ∷ rest) = none
owner_change (none ∷ old ∷ some new_owner ∷ rest) = none
owner_change [] = none
owner_change (name ∷ []) = none
owner_change (name ∷ old ∷ []) = none

module _ {S : Type 0} (bus : Bus S) where
  -- True when the channel is made and the handler starts.
  unfoldable pub connect_to_firewalld : S → S × Bool
  connect_to_firewalld s =
      let (s', connected) = bus.system_bus s in
      if connected
      then (
        bus.signal (bus.bus_call add_match owner_rule (bus.bus_call add_match reloaded_rule s')),
        true,
      )
      else (s', false)

module _ {S : Type 0} (bus : Bus S) (reload_funcs : List (S → S)) where
  abbrev owner_changed : Option (Str × Str) → S → Option S
  owner_changed none s = none
  owner_changed (some (name, [])) s = some s
  owner_changed (some (name, c ∷ new_owner)) s =
      if str_eq name firewalld_name
      then some (
          reload reload_funcs (
            bus.call firewalld_name firewalld_path (firewalld_interface ++ codes ".getDefaultZone")
              s))
      else some s

  -- One round of the loop; `none` is a panic.
  unfoldable pub handle_signal : Signal → S → Option S
  unfolding reload
  handle_signal sig s =
      if str_eq sig.name (codes "org.freedesktop.DBus.NameOwnerChanged")
      then owner_changed (owner_change sig.body) s
      else if str_eq sig.name (firewalld_interface ++ codes ".Reloaded")
      then some (reload reload_funcs s)
      else some s

  -- The signals that come on the channel, a nil one among them as `none`: it ends the handler.
  unfoldable pub dbus_signal_handler : List (Option Signal) → S → Option S
  unfolding handle_signal
  dbus_signal_handler [] s = some s
  dbus_signal_handler (none ∷ signals) s = some (bus.signal s)
  dbus_signal_handler (some sig ∷ signals) s = elim (handle_signal sig s) [
    | none ↦ none
    | some s' ↦ dbus_signal_handler signals s'
  ]

-- On the text of the error.
unfoldable pub is_not_found_error : Str → Bool
unfolding contains
is_not_found_error es =
    if contains es (codes "No such file or directory")
    then true
    else contains es (codes "No chain/target/match by that name")
