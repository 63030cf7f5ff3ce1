-- ===== src/App/Ports/Kept.antt =====
-- A server that is started again has the port of the last time.
use myworktree.Prelude.{
  ℕ, ◌<◌, ◌≤◌, ◌≡◌, refl, sym, ap, subst, ◌∙◌, true, false, ◌&&◌, Option, none, some, String, pos,
  ltb, str_eq, trim_space, arith, Bool-cases, inl, inr,
}
use myworktree.App.Ports.{
  ServerCodec, ServerConfig, Machine, PortRead, port_read, invalid_port, port_error, Resolved,
  at_port, read_repo_listen_port, write_repo_listen_port, allocate_repo_listen_addr, allocated,
  resolve_read, resolve_repo_listen_addr, port_in, port_of, written_at, named_config, kept_config,
}

-- what `net.Listen` documents of the port it picks
abbrev pub GivesPorts : Machine → Type 0
GivesPorts m = (host : String) (p : ℕ) → m.probe host ≡ some p → (0 < p) × (p ≤ 65535)

module _ {Text : Type 0} (c : ServerCodec Text) where
  -- server.json holds the port
  Remembers : ℕ → Option Text → Type 0
  Remembers p file =
      (0 < p) × (b : Text) × (file ≡ some b) × (port_in (c.decode_config b) ≡ port_read p)

  encoded-Remembers :
      (cfg : ServerConfig) (p : ℕ)
      → cfg.listen_port ≡ pos p
      → 0 < p
      → p ≤ 65535
      → Remembers p (some (c.encode_config cfg))
  unfolding Remembers
  encoded-Remembers cfg p e lo hi = (
    lo,
    c.encode_config cfg,
    refl,
    ap port_in (c.decode-encode_config cfg) ∙ ap port_of e ∙ ground (arith, lo, hi),
  )

  named-Remembers :
      (m : Machine) (p : ℕ) (cfg : ServerConfig)
      → 0 < p
      → p ≤ 65535
      → Remembers p (some (c.encode_config (named_config c m p cfg)))
  named-Remembers m p cfg lo hi = encoded-Remembers (named_config c m p cfg) p refl lo hi

  -- an answer with a port, and the port in the file
  Settled : String → Resolved × Option Text → Type 0
  Settled host r = (h : String) (q : ℕ) → r.0 ≡ at_port h q → (h ≡ host) × Remembers q r.1

  written-Settled :
      (m : Machine) (host : String) (p : ℕ) (file : Option Text)
      → 0 < p
      → p ≤ 65535
      → Settled host (written_at c host p (write_repo_listen_port c m p file))
  unfolding write_repo_listen_port Settled
  written-Settled m host p file lo hi = elim (Bool-cases m.write_fails) [
    | inl w ↦ simp (w) (λ h q e. absurd (ground (arith, e)))
    | inr w ↦ simp (w) (λ h q e. (
      ground (arith, e),
      subst (λ n. Remembers n (some (c.encode_config (named_config c m p (kept_config c m file)))))
          (ground (arith, e)) (named-Remembers m p (kept_config c m file) lo hi),
    ))
  ]

  allocated-Settled :
      (m : Machine) (host : String) (o : Option ℕ) (file : Option Text)
      → GivesPorts m
      → m.probe host ≡ o
      → Settled host (allocated c m host o file)
  unfolding allocated Settled
  allocated-Settled m host none file gives e = λ h q a. absurd (ground (arith, a))
  allocated-Settled m host (some p) file gives e =
      written-Settled m host p file (gives host p e).0 (gives host p e).1

  allocate-Settled :
      (m : Machine) (host : String) (file : Option Text)
      → GivesPorts m
      → Settled host (allocate_repo_listen_addr c m host file)
  unfolding allocate_repo_listen_addr
  allocate-Settled m host file gives = allocated-Settled m host (m.probe host) file gives refl

  read-Remembers :
      (m : Machine) (p : ℕ) (file : Option Text)
      → read_repo_listen_port c m file ≡ port_read p
      → 0 < p
      → Remembers p file
  unfolding Remembers read_repo_listen_port
  read-Remembers m p none e lo = elim (Bool-cases m.read_fails) [
    | inl f ↦ absurd (ground (arith, e, f))
    | inr f ↦ absurd (ground (arith, e, f, lo))
  ]
  read-Remembers m p (some b) e lo = elim (Bool-cases m.read_fails) [
    | inl f ↦ absurd (ground (arith, e, f))
    | inr f ↦ (lo, b, refl, ground (arith, e, f))
  ]

  resolve_read-Settled :
      (m : Machine) (host : String) (r : PortRead) (file : Option Text)
      → GivesPorts m
      → read_repo_listen_port c m file ≡ r
      → Settled host (resolve_read c m host r file)
  unfolding resolve_read Settled
  resolve_read-Settled m host port_error file gives e = λ h q a. absurd (ground (arith, a))
  resolve_read-Settled m host invalid_port file gives e = allocate-Settled m host file gives
  resolve_read-Settled m host (port_read p) file gives e =
      elim (Bool-cases (ltb 0 p && m.can_listen_tcp host p)) [
        | inr n ↦ rw n (allocate-Settled m host file gives)
        | inl y ↦ rw y (λ h q a. (
          ground (arith, a),
          subst (λ n. Remembers n file) (ground (arith, a))
              (read-Remembers m p file e (ground (arith, y))),
        ))
      ]

  -- Where the file holds the port and it is free, it is taken.
  taken_again :
      (m : Machine) (host port : String) (q : ℕ) (file : Option Text)
      → str_eq (trim_space port) "0" ≡ true
      → Remembers q file
      → m.read_fails ≡ false
      → m.can_listen_tcp host q ≡ true
      → resolve_repo_listen_addr c m (some (host, port)) file ≡ (at_port host q, file)
  unfolding resolve_repo_listen_addr resolve_read read_repo_listen_port Remembers
  taken_again m host port q file z (lo, b, e, d) r l = rw (z, e, r, d, l) (ground (arith, lo))

  resolve-Settled :
      (m : Machine) (host port : String) (file : Option Text)
      → GivesPorts m
      → str_eq (trim_space port) "0" ≡ true
      → Settled host (resolve_repo_listen_addr c m (some (host, port)) file)
  unfolding resolve_repo_listen_addr
  resolve-Settled m host port file gives z =
      rw z (resolve_read-Settled m host (read_repo_listen_port c m file) file gives refl)

  -- With a listen address whose port is 0: if a start of the server gets an address, then the next one gets
  -- the same address, host and port, and leaves server.json as it is, if it can read that file and the port
  -- is free; whatever server.json held before, if the system gives ports from 1 to 65535.
  pub resolve-Kept :
      (m next : Machine)
      → GivesPorts m
      → (host port : String) → str_eq (trim_space port) "0" ≡ true
      → (file : Option Text) (h : String) (q : ℕ)
      → (resolve_repo_listen_addr c m (some (host, port)) file).0 ≡ at_port h q
      → next.read_fails ≡ false
      → next.can_listen_tcp h q ≡ true
      → resolve_repo_listen_addr c next
          (some (host, port))
          (resolve_repo_listen_addr c m (some (host, port)) file).1
        ≡ (at_port h q, (resolve_repo_listen_addr c m (some (host, port)) file).1)
  unfolding Settled
  resolve-Kept m next gives host port z file h q a r l =
      subst (λ x. resolve_repo_listen_addr c next (some (host, port)) after ≡ (at_port x q, after))
        (sym settled.0)
        (taken_again next host port q after z settled.1 r
          (subst (λ x. next.can_listen_tcp x q ≡ true) settled.0 l))
    where
      after : Option Text
      after = (resolve_repo_listen_addr c m (some (host, port)) file).1

      settled : (h ≡ host) × Remembers q after
      settled = resolve-Settled m host port file gives z h q a
