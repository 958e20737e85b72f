-- ===== src/Packet/RoundTrip.antt =====
-- What a reader of include/lmkd.h finds in a packet that the matching writer stored.
use system_memory_lmkd.Base.{
  ℕ, suc, ◌+◌, ◌*◌, ◌/◌, ◌^◌, ◌<◌, ◌≡◌, refl, some, List, [], ◌∷◌, ◌++◌, get_or, length,
  length-append, All, arith,
}
use mathlib.Core.List.{append_assoc}
use system_memory_lmkd.Base.Int.{ℤ, to_word, of_word, IsInt32, to_word-lt, of_word-to_word}
use system_memory_lmkd.Packet.{
  ByteOrder, LmkCmd, target, procprio, procremove, getkillcnt, procs_prio, cmd_code, cmd_of,
  LmkTarget, LmkProcprio, LmkGetkillcnt, word_at, word, pack_get_cmd, header, pack_get_target,
  target_words, pack_set_target, pack_get_procprio, procprio_words, pack_set_procprio,
  pack_get_procremove, pack_set_procremove, pack_get_getkillcnt, pack_set_getkillcnt, pack_set_repl,
  pack_get_repl, procs_at, pack_get_procs_prio, procs_words, pack_set_procs_prio, proc_type_app,
}

abbrev pub IsTarget : LmkTarget → Type 0
IsTarget t = IsInt32 t.minfree × IsInt32 t.oom_adj_score

abbrev pub IsProcprio : LmkProcprio → Type 0
IsProcprio p = IsInt32 p.pid × IsInt32 p.uid × IsInt32 p.oomadj × IsInt32 p.ptype

cmd_code-lt : (c : LmkCmd) → cmd_code c < 2 ^ 32
unfolding cmd_code
cmd_code-lt c = ground arith

cmd_of-cmd_code : (c : LmkCmd) → cmd_of (cmd_code c) ≡ some c
unfolding cmd_code cmd_of
cmd_of-cmd_code c = ground arith

get_or-append : (xs ys : List ℕ) (i : ℕ) → get_or (xs ++ ys) (length xs + i) 0 ≡ get_or ys i 0
get_or-append [] ys i = let e : 0 + i ≡ i = omega arith in rw e
get_or-append (x ∷ xs) ys i =
    let e : suc (length xs) + i ≡ suc (length xs + i) = omega arith in rw e (get_or-append xs ys i)

module _ (order : ByteOrder) where
  open order use {htonl, ntohl, ntohl-htonl}

  pub get_cmd-header :
      (c : LmkCmd) (rest : List ℕ) → pack_get_cmd order (header order c ∷ rest) ≡ some c
  unfolding pack_get_cmd header
  get_cmd-header c rest = rw (ntohl-htonl (cmd_code c) (cmd_code-lt c)) (cmd_of-cmd_code c)

  pub read-word : (a : ℤ) → IsInt32 a → of_word (ntohl (word order a)) ≡ a
  unfolding word
  read-word a h = rw (ntohl-htonl (to_word a) (to_word-lt a)) (of_word-to_word a h)

  -- The record that a request sends is the one that the daemon reads, whatever the buffer holds
  -- behind it; a request of three fields is read as an application's.
  pub get-set_procprio :
      (p : LmkProcprio) (junk : List ℕ)
      → IsProcprio p
      → (pack_get_cmd order (pack_set_procprio order p ++ junk) ≡ some procprio)
        × (pack_get_procprio order (pack_set_procprio order p ++ junk) 4 ≡ p)
        × (pack_get_procprio order (pack_set_procprio order p ++ junk) 3
            ≡ record p { ptype = proc_type_app })
  unfolding pack_set_procprio procprio_words pack_get_procprio word_at
  get-set_procprio p junk (h0, h1, h2, h3) = (
    get_cmd-header procprio _,
    ground (
      arith,
      read-word p.pid h0,
      read-word p.uid h1,
      read-word p.oomadj h2,
      read-word p.ptype h3,
    ),
    ground (arith, read-word p.pid h0, read-word p.uid h1, read-word p.oomadj h2),
  )

  length-target_words : (ts : List LmkTarget) → length (target_words order ts) ≡ length ts * 2
  unfolding target_words
  length-target_words [] = refl
  length-target_words (t ∷ ts) = omega (arith, length-target_words ts)

  target_words-append :
      (ts us : List LmkTarget)
      → target_words order (ts ++ us) ≡ target_words order ts ++ target_words order us
  unfolding target_words
  target_words-append [] us = refl
  target_words-append (t ∷ ts) us = rw (target_words-append ts us)

  -- A word behind a prefix is read as its integer.
  read-at :
      (pre rest : List ℕ) (i j : ℕ) (a : ℤ)
      → j ≡ length pre + i
      → get_or rest i 0 ≡ word order a
      → IsInt32 a
      → word_at order (pre ++ rest) j ≡ a
  unfolding word_at
  read-at pre rest i j a e g h = rw (e, get_or-append pre rest i, g) (read-word a h)

  -- Each target of an LMK_TARGET packet is read back at its own index.
  pub get-set_target :
      (before after : List LmkTarget) (t : LmkTarget) (junk : List ℕ)
      → IsTarget t
      → (pack_get_cmd order (pack_set_target order (before ++ t ∷ after) ++ junk) ≡ some target)
        × (pack_get_target order
              (pack_set_target order (before ++ t ∷ after) ++ junk)
              (length before)
            ≡ t)
  unfolding pack_set_target pack_get_target target_words
  get-set_target before after t junk (h0, h1) =
      let pre = header order target ∷ target_words order before in
      let rest =
        word order t.minfree ∷ word order t.oom_adj_score ∷ (target_words order after ++ junk) in
      (
        get_cmd-header target _,
        rw
            (
              target_words-append before (t ∷ after),
              append_assoc (target_words order before) (target_words order (t ∷ after)) junk,
            )
            (ground (
              arith,
              read-at pre rest 0 (length before * 2 + 1) t.minfree
                  (omega (arith, length-target_words before)) refl h0,
              read-at pre rest 1 (length before * 2 + 2) t.oom_adj_score
                  (omega (arith, length-target_words before)) refl h1,
            )),
      )

  length-procs_words : (ps : List LmkProcprio) → length (procs_words order ps) ≡ 4 * length ps
  unfolding procs_words procprio_words
  length-procs_words [] = refl
  length-procs_words (p ∷ ps) = omega (arith, length-procs_words ps)

  procs_at-words :
      (ps : List LmkProcprio) (pre junk : List ℕ) (idx : ℕ)
      → All IsProcprio ps
      → idx ≡ length pre
      → procs_at order (pre ++ (procs_words order ps ++ junk)) (length ps) idx ≡ ps
  unfolding procs_at procs_words procprio_words
  procs_at-words [] pre junk idx h e = refl
  procs_at-words (p ∷ ps) pre junk idx ((h0, h1, h2, h3), h) e =
      let four =
        word order p.pid ∷ word order p.uid ∷ word order p.oomadj ∷ word order p.ptype ∷ [] in
      let rest = four ++ (procs_words order ps ++ junk) in
      let tail : procs_at order (pre ++ rest) (length ps) (idx + 4) ≡ ps =
        rw (← append_assoc pre four (procs_words order ps ++ junk)) (
          procs_at-words ps (pre ++ four) junk (idx + 4) h
            (omega (arith, length-append pre four))) in
      ground (
        arith,
        tail,
        read-at pre rest 0 idx p.pid (omega arith) refl h0,
        read-at pre rest 1 (idx + 1) p.uid (omega arith) refl h1,
        read-at pre rest 2 (idx + 2) p.oomadj (omega arith) refl h2,
        read-at pre rest 3 (idx + 3) p.ptype (omega arith) refl h3,
      )

  -- A non-empty batch of registrations is read back whole, from a packet of four fields a record.
  pub get-set_procs_prio :
      (ps : List LmkProcprio) (junk : List ℕ)
      → 0 < length ps
      → All IsProcprio ps
      → (pack_get_cmd order (pack_set_procs_prio order ps ++ junk) ≡ some procs_prio)
        × (length (pack_set_procs_prio order ps) ≡ 1 + 4 * length ps)
        × (pack_get_procs_prio order (pack_set_procs_prio order ps ++ junk) (4 * length ps)
            ≡ some ps)
  unfolding pack_set_procs_prio pack_get_procs_prio
  get-set_procs_prio ps junk n h = (
    get_cmd-header procs_prio _,
    omega (arith, length-procs_words ps),
    ground (arith, whole (4 * length ps / 4) (omega arith)),
  )
    where
      whole :
          (k : ℕ)
          → k ≡ length ps
          → procs_at order (header order procs_prio ∷ (procs_words order ps ++ junk)) k 1 ≡ ps
      whole k e = rw e (procs_at-words ps (header order procs_prio ∷ []) junk 1 h refl)

  -- The other requests, the replies and the kill notification carry their values unchanged.
  pub get-set_procremove :
      (pid : ℤ) (junk : List ℕ)
      → IsInt32 pid
      → (pack_get_cmd order (pack_set_procremove order pid ++ junk) ≡ some procremove)
        × (pack_get_procremove order (pack_set_procremove order pid ++ junk) ≡ pid)
  unfolding pack_set_procremove pack_get_procremove word_at
  get-set_procremove pid junk h = (get_cmd-header procremove _, read-word pid h)

  pub get-set_getkillcnt :
      (g : LmkGetkillcnt) (junk : List ℕ)
      → IsInt32 g.min_oomadj
      → IsInt32 g.max_oomadj
      → (pack_get_cmd order (pack_set_getkillcnt order g ++ junk) ≡ some getkillcnt)
        × (pack_get_getkillcnt order (pack_set_getkillcnt order g ++ junk) ≡ g)
  unfolding pack_set_getkillcnt pack_get_getkillcnt word_at
  get-set_getkillcnt g junk h0 h1 = (
    get_cmd-header getkillcnt _,
    ground (arith, read-word g.min_oomadj h0, read-word g.max_oomadj h1),
  )

  pub get-set_repl :
      (c : LmkCmd) (result : ℤ) (junk : List ℕ)
      → IsInt32 result
      → (pack_get_cmd order (pack_set_repl order c result ++ junk) ≡ some c)
        × (pack_get_repl order (pack_set_repl order c result ++ junk) ≡ result)
  unfolding pack_set_repl pack_get_repl word_at
  get-set_repl c result junk h = (get_cmd-header c _, read-word result h)
