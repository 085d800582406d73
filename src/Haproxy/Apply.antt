-- ===== src/Haproxy/Apply.antt =====
-- Which configurations reach haproxy.
use kube_bazellb.Prelude.{
  Bool, true, false, List, [], ◌∷◌, ◌++◌, Str, codes, str_eq_iff, ◌≡◌, ◌⊎◌, ap, arith,
}
use kube_bazellb.Haproxy.{
  System, Haproxy, dir, and_then, check_configs, write_conf, read_pids, restart, run_conf,
}

last_conf_lem :
    {S : Type 0} (sys : System S) (conf : Str) (h : Haproxy) (s : S)
    → (run_conf sys conf (h, s)).0.last_conf ≡ conf
unfolding run_conf
last_conf_lem sys conf h s = ground (arith, str_eq_iff h.last_conf conf)

same_conf :
    {S : Type 0} (sys : System S) (conf : Str) (hs : Haproxy × S)
    → hs.0.last_conf ≡ conf
    → run_conf sys conf hs ≡ hs
unfolding run_conf
same_conf sys conf (h, s) e = ground (arith, e, str_eq_iff h.last_conf conf)

-- Whatever the system does, a configuration that has just been handled, with success or without,
-- changes nothing when it comes again.
pub run_conf-run_conf :
    {S : Type 0} (sys : System S) (conf : Str) (h : Haproxy) (s : S)
    → run_conf sys conf (run_conf sys conf (h, s)) ≡ run_conf sys conf (h, s)
run_conf-run_conf sys conf h s =
    same_conf sys conf (run_conf sys conf (h, s)) (last_conf_lem sys conf h s)

abbrev tmp_of : Haproxy → Str
tmp_of h = h.conf_file ++ codes ".tmp"

abbrev check_args : Haproxy → List Str
check_args h = h.cmd_path ∷ codes "-f" ∷ tmp_of h ∷ codes "-c" ∷ []

-- What the system promises of the files that the loop writes; `accepted` are the texts in which haproxy
-- finds no fault.
pub record Lawful {S : Type 0} (sys : System S) (h : Haproxy) (file : S → Str → Str)
    (accepted : Str → Bool) : Type 0 where
  pub mkdir_law :
      (path : Str) (s : S) → file (sys.mkdir_all path s).0 h.conf_file ≡ file s h.conf_file
  pub write_other :
      (conf : Str) (s : S)
      → file (sys.write_file (tmp_of h) conf s).0 h.conf_file ≡ file s h.conf_file
  pub write_done :
      (conf : Str) (s : S)
      → (sys.write_file (tmp_of h) conf s).1 ≡ true
      → file (sys.write_file (tmp_of h) conf s).0 (tmp_of h) ≡ conf
  pub check_keeps :
      (path : Str) (s : S) → file (sys.combined_output (check_args h) s).0 path ≡ file s path
  pub check_accepts :
      (s : S)
      → (sys.combined_output (check_args h) s).1 ≡ true
      → accepted (file s (tmp_of h)) ≡ true
  pub rename_done :
      (s : S)
      → (sys.rename (tmp_of h) h.conf_file s).1 ≡ true
      → file (sys.rename (tmp_of h) h.conf_file s).0 h.conf_file ≡ file s (tmp_of h)
  pub rename_failed :
      (s : S)
      → (sys.rename (tmp_of h) h.conf_file s).1 ≡ false
      → file (sys.rename (tmp_of h) h.conf_file s).0 h.conf_file ≡ file s h.conf_file
  pub start_law :
      (args : List Str) (s : S) → file (sys.start args s).0 h.conf_file ≡ file s h.conf_file
  pub wait_law : (s : S) → file (sys.wait s).0 h.conf_file ≡ file s h.conf_file

module _ {S : Type 0} (sys : System S) (h : Haproxy) (file : S → Str → Str) (accepted : Str → Bool)
    (lawful : Lawful sys h file accepted) where
  -- After the first steps: the temporary file holds the configuration if they went well.
  written_lem :
      (conf : Str) (s : S)
      → (let w =
            and_then sys (sys.mkdir_all (dir h.conf_file) s) (sys.write_file (tmp_of h) conf) in
          (file w.0 h.conf_file ≡ file s h.conf_file) × (w.1 ≡ true → file w.0 (tmp_of h) ≡ conf))
  written_lem conf s =
      let m = sys.mkdir_all (dir h.conf_file) s in
      ground (
        arith,
        lawful.mkdir_law (dir h.conf_file) s,
        lawful.write_other conf m.0,
        lawful.write_done conf m.0,
      )

  checked_lem :
      (conf before : Str) (w : S × Bool)
      → file w.0 h.conf_file ≡ before
      → (w.1 ≡ true → file w.0 (tmp_of h) ≡ conf)
      → (let c = and_then sys w (check_configs sys h (tmp_of h)) in
          (file c.0 h.conf_file ≡ before)
          × (c.1 ≡ true → (file c.0 (tmp_of h) ≡ conf) × (accepted conf ≡ true)))
  unfolding check_configs
  checked_lem conf before w e f = ground (
    arith,
    e,
    f,
    lawful.check_keeps h.conf_file w.0,
    lawful.check_keeps (tmp_of h) w.0,
    lawful.check_accepts w.0,
    ap accepted {x = file w.0 (tmp_of h)} {y = conf},
  )

  renamed_lem :
      (conf before : Str) (c : S × Bool)
      → file c.0 h.conf_file ≡ before
      → (c.1 ≡ true → (file c.0 (tmp_of h) ≡ conf) × (accepted conf ≡ true))
      → (let r = and_then sys c (sys.rename (tmp_of h) h.conf_file) in
          (file r.0 h.conf_file ≡ before)
          ⊎ ((file r.0 h.conf_file ≡ conf) × (accepted conf ≡ true)))
  renamed_lem conf before c e f =
      ground (arith, e, f, lawful.rename_done c.0, lawful.rename_failed c.0)

  restart_lem : (g : Haproxy) (s : S) → file (restart sys g s).0 h.conf_file ≡ file s h.conf_file
  unfolding restart
  restart_lem g s =
      let args =
        g.cmd_path
        ∷ codes "-f"
        ∷ g.conf_file
        ∷ codes "-D"
        ∷ codes "-p"
        ∷ g.pid_file
        ∷ codes "-sf"
        ∷ read_pids sys g s in
      ground (arith, lawful.start_law args s, lawful.wait_law (sys.start args s).0)

  write_conf_lem :
      (conf : Str) (s : S)
      → (let r = write_conf sys h conf s in
          (file r.0 h.conf_file ≡ file s h.conf_file)
          ⊎ ((file r.0 h.conf_file ≡ conf) × (accepted conf ≡ true)))
  unfolding write_conf
  write_conf_lem conf s =
      let w = and_then sys (sys.mkdir_all (dir h.conf_file) s) (sys.write_file (tmp_of h) conf) in
      let (kept, wrote) = written_lem conf s in
      let c = and_then sys w (check_configs sys h (tmp_of h)) in
      let (still, checked) = checked_lem conf (file s h.conf_file) w kept wrote in
      renamed_lem conf (file s h.conf_file) c still checked

  run_conf-write_conf :
      (conf : Str) (s : S)
      → (let r = write_conf sys h conf s in
          let s' = (run_conf sys conf (h, s)).1 in
          (file s' h.conf_file ≡ file s h.conf_file) ⊎ (file s' h.conf_file ≡ file r.0 h.conf_file))
  unfolding run_conf
  run_conf-write_conf conf s =
      let r = write_conf sys h conf s in
      ground (arith, restart_lem (record h { last_conf = conf }) r.0)

  -- When the system keeps its promise on files, a round of the haproxy loop leaves the
  -- configuration file as it was, or puts the new configuration into it, and that only if haproxy
  -- finds no fault in it.
  pub run_conf-accepted :
      (conf : Str) (s : S)
      → (let now = file (run_conf sys conf (h, s)).1 h.conf_file in
          (now ≡ file s h.conf_file) ⊎ ((now ≡ conf) × (accepted conf ≡ true)))
  run_conf-accepted conf s = ground (arith, write_conf_lem conf s, run_conf-write_conf conf s)
