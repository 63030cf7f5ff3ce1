-- ===== src/Dsh/Bridge/Live.antt =====
-- Whatever the order of the steps of the bridge, a registered connection is under its own id, and has not
-- finished its close.
use myworktree.Prelude.{
  ℕ, ◌<◌, ◌≡◌, ◌≢◌, refl, sym, ap, subst, ◌∙◌, true, false, Option, none, some, String, lookup,
  insert, lookup-insert, lookup-remove, str_eq, eq_iff, ◌==◌, ==_iff, arith, Bool-cases, inl, inr,
}
use myworktree.Dsh.Bridge.{
  MuxBridge, CloseState, live, closing, closed, take_over, register_conn, in_phase, begin_from,
  begin_close, leave_map, end_from, end_close, is_registered, Uplink, uplink_to,
}

-- The steps of the goroutines, in any order: a downlink takes its id over, registers its connection, a close
-- begins or goes on, and an uplink uses a connection that it has found before.
pub data Step : MuxBridge → MuxBridge → Type 0 where
  taken_over : (id : String) (b : MuxBridge) → Step b (take_over id b).1
  registered : (id : String) (b : MuxBridge) → Step b (register_conn id b)
  close_begun : (s : ℕ) (b : MuxBridge) → Step b (begin_close s b)
  close_ended : (s : ℕ) (b : MuxBridge) → Step b (end_close s b)
  uplinked : (s : ℕ) (u : Uplink) (b : MuxBridge) → Step b (uplink_to s u b).bridge

pub data Steps : MuxBridge → MuxBridge → Type 0 where
  start : (b : MuxBridge) → Steps b b
  more : {a b c : MuxBridge} → Steps a b → Step b c → Steps a c

-- A registered connection is one of its id whose close has not ended, and serials are not used twice.
pub record Sound (b : MuxBridge) : Type 0 where
  pub owned : (id : String) (s : ℕ) → lookup id b.conns ≡ some s → b.owner s ≡ some id
  pub unclosed : (id : String) (s : ℕ) → lookup id b.conns ≡ some s → b.phase s ≢ closed
  pub fresh : (s : ℕ) (id : String) → b.owner s ≡ some id → s < b.next

pub take_over-Sound : (id : String) (b : MuxBridge) → Sound b → Sound (take_over id b).1
unfolding take_over
take_over-Sound id b sound = record {
  owned = λ i s h. sound.owned i s (ground (arith, h, lookup-remove id i b.conns));
  unclosed = λ i s h. sound.unclosed i s (ground (arith, h, lookup-remove id i b.conns));
  fresh = sound.fresh;
}

pub register_conn-Sound : (id : String) (b : MuxBridge) → Sound b → Sound (register_conn id b)
unfolding register_conn
register_conn-Sound id b sound = record {
  owned = λ i s h. elim (Bool-cases (str_eq id i)) [
    | inl e ↦ ground (arith, h, e, lookup-insert id i b.next b.conns, eq_iff id i)
    | inr e ↦
        let old = before i s h e in
        ground (arith, sound.owned i s old, sound.fresh s i (sound.owned i s old))
  ];
  unclosed = λ i s h. elim (Bool-cases (str_eq id i)) [
    | inl e ↦ λ q. ground (arith, h, e, q, lookup-insert id i b.next b.conns)
    | inr e ↦ λ q. sound.unclosed i s (before i s h e) (ground (arith, q))
  ];
  fresh = λ s i h. ground (arith, h, sound.fresh s i);
}
  where
    before :
        (i : String) (s : ℕ)
        → lookup i (insert id b.next b.conns) ≡ some s
        → str_eq id i ≡ false
        → lookup i b.conns ≡ some s
    before i s h e = ground (arith, h, e, lookup-insert id i b.next b.conns)

begin_from-Sound : (s : ℕ) (p : CloseState) (b : MuxBridge) → Sound b → Sound (begin_from s p b)
begin_from-Sound s live b sound = record {
  owned = sound.owned;
  unclosed = λ i t h q. sound.unclosed i t h (ground (arith, q));
  fresh = sound.fresh;
}
begin_from-Sound s closing b sound = sound
begin_from-Sound s closed b sound = sound

pub begin_close-Sound : (s : ℕ) (b : MuxBridge) → Sound b → Sound (begin_close s b)
unfolding begin_close
begin_close-Sound s b sound = begin_from-Sound s (b.phase s) b sound

-- What stays in the map when a connection leaves it: what was there, but for the connection itself.
leave_map-conns :
    (s : ℕ) (id : String) (b : MuxBridge) (i : String) (t : ℕ)
    → lookup i (leave_map s (some id) b).conns ≡ some t
    → (lookup i b.conns ≡ some t) × (str_eq id i ≡ true → (t == s) ≡ false)
unfolding leave_map
leave_map-conns s id b i t h = elim (Bool-cases (is_registered (lookup id b.conns) s)) [
  | inl r ↦ (
    ground (arith, h, r, lookup-remove id i b.conns),
    λ q. absurd (ground (arith, h, r, q, lookup-remove id i b.conns)),
  )
  | inr r ↦
      let stays : lookup i b.conns ≡ some t = ground (arith, h, r) in
      (
        stays,
        λ q.
            let here : is_registered (lookup i b.conns) s ≡ false =
              subst (λ k. is_registered (lookup k b.conns) s ≡ false) ((eq_iff id i).0 q) r in
            subst (λ o. is_registered o s ≡ false) stays here,
      )
]

leave_map-unclosed :
    (s : ℕ) (id : String) (b : MuxBridge)
    → Sound b
    → b.owner s ≡ some id
    → (i : String) (t : ℕ) → lookup i (leave_map s (some id) b).conns ≡ some t
    → (in_phase s closed b).phase t ≢ closed
leave_map-unclosed s id b sound e i t h q =
    let (stays, other) = leave_map-conns s id b i t h in
    elim (Bool-cases (t == s)) [
      | inr n ↦ sound.unclosed i t stays (ground (arith, n, q))
      | inl y ↦
          let same : some i ≡ some id =
            sym (sound.owned i t stays) ∙ ap b.owner ((==_iff t s).0 y) ∙ e in
          absurd (ground (arith, y, other, same, eq_iff id i))
    ]

leave_map-Sound :
    (s : ℕ) (o : Option String) (b : MuxBridge) → Sound b → b.owner s ≡ o → Sound (leave_map s o b)
unfolding leave_map
leave_map-Sound s none b sound e = sound
leave_map-Sound s (some id) b sound e = record {
  owned = λ i t h. sound.owned i t (leave_map-conns s id b i t h).0;
  unclosed = leave_map-unclosed s id b sound e;
  fresh = sound.fresh;
}

end_from-Sound : (s : ℕ) (p : CloseState) (b : MuxBridge) → Sound b → Sound (end_from s p b)
unfolding end_from
end_from-Sound s live b sound = sound
end_from-Sound s closing b sound = leave_map-Sound s (b.owner s) b sound refl
end_from-Sound s closed b sound = sound

pub end_close-Sound : (s : ℕ) (b : MuxBridge) → Sound b → Sound (end_close s b)
unfolding end_close
end_close-Sound s b sound = end_from-Sound s (b.phase s) b sound
