-- ===== src/Control/Connections.antt =====
-- The data connections and the number of events that are waited for.
use system_memory_lmkd.Base.{
  ℕ, zero, suc, ◌+◌, ◌<◌, ◌≡◌, refl, Bool, true, false, none, some, ◌⊎◌, arith, inl, inr,
  Bool-cases, update,
}
use system_memory_lmkd.Base.Int.{ℤ, pos, negsuc, ◌<?◌, +ℤ_parts, -ℤ_parts}
use system_memory_lmkd.Control.{Server, DataSock, ctrl_data_close, max_data_conn}
use system_memory_lmkd.Control.Accept.{get_free_dsock, close_all, connect_at, ctrl_connect_handler}
use system_memory_lmkd.Monitors.Ledger.{watch, DifferAs}

-- The connections that are in use.
abbrev pub connections : (ℕ → DataSock) → ℕ
connections f = watch (f 0).sock + watch (f 1).sock + watch (f 2).sock

connections-update :
    (f : ℕ → DataSock) (i : ℕ) (c : DataSock)
    → i < max_data_conn
    → connections (update f i c) + watch (f i).sock ≡ connections f + watch c.sock
connections-update f zero c h = omega arith
connections-update f (suc zero) c h = omega arith
connections-update f (suc (suc zero)) c h = omega arith
connections-update f (suc (suc (suc i))) c h = absurd (omega (arith, h))

-- The events and the connections of a server change alike.
abbrev pub Balanced : Server → Server → Type 0
Balanced s s' =
    DifferAs s'.daemon.maxevents s.daemon.maxevents (connections s'.data_sock)
      (connections s.data_sock)

abbrev IsOpen : Server → ℕ → Type 0
IsOpen s i = ((s.data_sock i).sock <? pos 0) ≡ false

close-Balanced :
    (s : Server) (i : ℕ) → i < max_data_conn → IsOpen s i → Balanced s (ctrl_data_close s i).server
unfolding ctrl_data_close
close-Balanced s i h e =
    let gone = record (s.data_sock i) { sock = negsuc 0 } in
    let one : watch (s.data_sock i).sock ≡ 1 = rw e refl in
    omega (arith, connections-update s.data_sock i gone h, one, -ℤ_parts s.daemon.maxevents (pos 1))

close_all-Balanced :
    (s : Server) → IsOpen s 0 → IsOpen s 1 → IsOpen s 2 → Balanced s (close_all s).server
unfolding close_all ctrl_data_close
close_all-Balanced s a b c =
    let t = (ctrl_data_close s 0).server in
    let u = (ctrl_data_close t 1).server in
    omega (
      arith,
      close-Balanced s 0 (omega arith) a,
      close-Balanced t 1 (omega arith) b,
      close-Balanced u 2 (omega arith) c,
    )

-- What a new connection leaves, at an index that is free.
module _ (s : Server) (i : ℕ) (h : i < max_data_conn)
    (free : ((s.data_sock i).sock <? pos 0) ≡ true) where
  none_there : watch (s.data_sock i).sock ≡ 0
  none_there = rw free refl

  refused-Balanced :
      (fd : ℤ) (adds : Bool) → (fd <? pos 0) ≡ true → Balanced s (connect_at s i fd adds).server
  unfolding connect_at
  refused-Balanced fd adds e =
      let c = record (s.data_sock i) { sock = fd } in
      let zero_more : watch fd ≡ 0 = rw e refl in
      rw (e, connect_at)
        (omega (arith, connections-update s.data_sock i c h, none_there, zero_more))

  added-Balanced : (fd : ℤ) → (fd <? pos 0) ≡ false → Balanced s (connect_at s i fd true).server
  unfolding connect_at
  added-Balanced fd e =
      let c = record (s.data_sock i) { sock = fd; async_event_mask = 0 } in
      let one_more : watch fd ≡ 1 = rw e refl in
      rw (e, connect_at)
        (omega (
          arith,
          connections-update s.data_sock i c h,
          none_there,
          one_more,
          +ℤ_parts s.daemon.maxevents (pos 1),
        ))

  -- A descriptor that `epoll_ctl` refuses is closed like one that it had added.
  lost-Balanced :
      (fd : ℤ)
      → (fd <? pos 0) ≡ false
      → let s' = (connect_at s i fd false).server in
        DifferAs s'.daemon.maxevents s.daemon.maxevents
          (connections s'.data_sock)
          (connections s.data_sock + 1)
  unfolding connect_at
  lost-Balanced fd e =
      let c = record (s.data_sock i) { sock = fd; async_event_mask = 0 } in
      let accepted = record s { data_sock = update s.data_sock i c } in
      let there : IsOpen accepted i = ground (arith, e) in
      let one_more : watch fd ≡ 1 = rw e refl in
      rw (e, connect_at)
        (omega (
          arith,
          close-Balanced accepted i h there,
          connections-update s.data_sock i c h,
          none_there,
          one_more,
        ))

-- Which connection is free.
data Free (s : Server) : Type 0 where
  free_at :
      (i : ℕ)
      → get_free_dsock s ≡ some i
      → i < max_data_conn
      → ((s.data_sock i).sock <? pos 0) ≡ true
      → Free s
  full : get_free_dsock s ≡ none → IsOpen s 0 → IsOpen s 1 → IsOpen s 2 → Free s

Free-cases : (s : Server) → Free s
unfolding get_free_dsock
Free-cases s = elim (Bool-cases ((s.data_sock 0).sock <? pos 0)) [
  | inl a ↦ free_at 0 (rw (a, get_free_dsock) refl) (omega arith) a
  | inr a ↦ elim (Bool-cases ((s.data_sock 1).sock <? pos 0)) [
    | inl b ↦ free_at 1 (rw (a, b, get_free_dsock) refl) (omega arith) b
    | inr b ↦ elim (Bool-cases ((s.data_sock 2).sock <? pos 0)) [
      | inl c ↦ free_at 2 (rw (a, b, c, get_free_dsock) refl) (omega arith) c
      | inr c ↦ full (rw (a, b, c, get_free_dsock) refl) a b c
    ]
  ]
]

all-closed : (s : Server) → (((close_all s).server.data_sock 0).sock <? pos 0) ≡ true
unfolding close_all ctrl_data_close
all-closed s = refl

connect-Balanced :
    (s : Server) (i : ℕ) (fd : ℤ) (adds : Bool)
    → i < max_data_conn
    → ((s.data_sock i).sock <? pos 0) ≡ true
    → ((fd <? pos 0) ≡ true) ⊎ (adds ≡ true)
    → Balanced s (connect_at s i fd adds).server
connect-Balanced s i fd adds h free (inl e) = refused-Balanced s i h free fd adds e
connect-Balanced s i fd adds h free (inr e) = elim (Bool-cases (fd <? pos 0)) [
  | inl f ↦ refused-Balanced s i h free fd adds f
  | inr f ↦ rw e (added-Balanced s i h free fd f)
]

-- After a new connection as many events more are waited for as connections are in use more, also when
-- all were in use and are closed for it, unless `epoll_ctl` refuses the descriptor that `accept`
-- returned.
pub ctrl_connect_handler-Balanced :
    (s : Server) (fd : ℤ) (adds : Bool)
    → ((fd <? pos 0) ≡ true) ⊎ (adds ≡ true)
    → Balanced s (ctrl_connect_handler s fd adds).server
unfolding ctrl_connect_handler
ctrl_connect_handler-Balanced s fd adds taken = elim (Free-cases s) [
  | free_at i e h free ↦ rw (e, ctrl_connect_handler) (connect-Balanced s i fd adds h free taken)
  | full e a b c ↦
      let t = (close_all s).server in
      rw (e, ctrl_connect_handler)
        (omega (
          arith,
          close_all-Balanced s a b c,
          connect-Balanced t 0 fd adds (omega arith) (all-closed s) taken,
        ))
]

-- When `epoll_ctl` refuses the descriptor of a new connection, one event less is waited for than the
-- connections in use account for.
pub ctrl_connect_handler-loses :
    (s : Server) (fd : ℤ)
    → (fd <? pos 0) ≡ false
    → let s' = (ctrl_connect_handler s fd false).server in
      DifferAs s'.daemon.maxevents s.daemon.maxevents
        (connections s'.data_sock)
        (connections s.data_sock + 1)
unfolding ctrl_connect_handler
ctrl_connect_handler-loses s fd open_fd = elim (Free-cases s) [
  | free_at i e h free ↦ rw (e, ctrl_connect_handler) (lost-Balanced s i h free fd open_fd)
  | full e a b c ↦
      let t = (close_all s).server in
      rw (e, ctrl_connect_handler)
        (omega (
          arith,
          close_all-Balanced s a b c,
          lost-Balanced t 0 (omega arith) (all-closed s) fd open_fd,
        ))
]
