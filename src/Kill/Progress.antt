-- ===== src/Kill/Progress.antt =====
-- What the steps of `find_and_kill_process` have in common: the registry stays well formed and only
-- loses records, each process killed was registered at a score that may be killed, and each kill is
-- counted.
use mathlib.Core.Option
use system_memory_lmkd.Base.{
  ◌≤◌, ◌<◌, length, ◌≡◌, ◌∙◌, inl, inr, refl, sym, Bool, true, false, Option, none, some, List, [],
  ◌∷◌, ◌++◌, All, if◌then◌else◌, arith, Bool-cases, Option-cases,
}
use system_memory_lmkd.Base.Int.{ℤ, pos, negsuc, ◌/ℤ◌, ◌≤ℤ◌, ◌<ℤ◌, ◌<?◌}
use system_memory_lmkd.Kill.Attempt.{
  victims, victims-append, victims-closing, kill_one_process-Attempt,
}
use system_memory_lmkd.Kill.Heaviest.{choose_victim-Follows}
use system_memory_lmkd.Kill.Removal.{
  Follows, same-Follows, then-Follows, pid_remove-Follows, pid_remove-shorter,
}
use system_memory_lmkd.Kill.Search.{heaviest_of, proc_get_heaviest, choose_victim}
use system_memory_lmkd.Kill.{
  Daemon, Setup, Kernel, Effect, Outcome, Stepped, closing, kill_one_process,
}
use system_memory_lmkd.Killcnt.{Killcnt, inc_killcnt}
use system_memory_lmkd.Registry.Chain.{Proc}
use system_memory_lmkd.Registry.Hash.{adj_to_slot}
use system_memory_lmkd.Registry.Invariant.{IsValid}
use system_memory_lmkd.Registry.{Registry, pid_lookup, pid_remove}
use system_memory_lmkd.Time.{Timespec}

-- The victim was registered at its score, which is not below the least one allowed.
abbrev pub IsAllowed : Registry → ℤ → ℤ × ℤ → Type 0
IsAllowed r least (pid, a) = (least ≤ℤ a) × (Option.map (λ p. p.oomadj) (pid_lookup r pid) ≡ some a)

unfoldable pub count_all : Killcnt → List (ℤ × ℤ) → Killcnt
count_all c [] = c
count_all c ((pid, a) ∷ vs) = count_all (inc_killcnt c a) vs

pub record Progress (d : Daemon) (least : ℤ) (d' : Daemon) (es : List Effect) : Type 0 where
  pub follows : Follows d.registry d'.registry
  pub allowed : All (IsAllowed d.registry least) (victims es)
  pub counted : d'.killcnt ≡ count_all d.killcnt (victims es)

All-append : (P : ℤ × ℤ → Type 0) (xs ys : List (ℤ × ℤ)) → All P xs → All P ys → All P (xs ++ ys)
All-append P [] ys a b = b
All-append P (x ∷ xs) ys (h, a) b = (h, All-append P xs ys a b)

count_all-append :
    (c : Killcnt) (xs ys : List (ℤ × ℤ)) → count_all c (xs ++ ys) ≡ count_all (count_all c xs) ys
unfolding count_all
count_all-append c [] ys = refl
count_all-append c ((pid, a) ∷ xs) ys = count_all-append (inc_killcnt c a) xs ys

earlier-IsAllowed :
    (r r' : Registry) (least : ℤ) (vs : List (ℤ × ℤ))
    → Follows r r'
    → All (IsAllowed r' least) vs
    → All (IsAllowed r least) vs
earlier-IsAllowed r r' least [] f a = tt
earlier-IsAllowed r r' least ((pid, a) ∷ vs) f ((low, here), rest) =
    elim (Option-cases (pid_lookup r' pid)) [
      | inl e ↦ absurd (ground (arith, e, here))
      | inr (p, e) ↦
          ((low, ground (arith, e, here, f.still pid p e)), earlier-IsAllowed r r' least vs f rest)
    ]

pub same-Progress : (d : Daemon) (least : ℤ) → IsValid d.registry → Progress d least d []
unfolding victims count_all
same-Progress d least v = record {
  follows = same-Follows d.registry v;
  allowed = tt;
  counted = refl;
}

pub then-Progress :
    (a b c : Daemon) (least : ℤ) (xs ys : List Effect)
    → Progress a least b xs
    → Progress b least c ys
    → Progress a least c (xs ++ ys)
then-Progress a b c least xs ys p q = record {
  follows = then-Follows a.registry b.registry c.registry p.follows q.follows;
  allowed = rw (victims-append xs ys) (
      All-append (IsAllowed a.registry least) (victims xs) (victims ys) p.allowed
        (earlier-IsAllowed a.registry b.registry least (victims ys) p.follows q.allowed));
  counted =
      rw (victims-append xs ys)
        (rw (count_all-append a.killcnt (victims xs) (victims ys), sym p.counted) q.counted);
}

silent-Progress :
    (d d' : Daemon) (least : ℤ) (es : List Effect)
    → Follows d.registry d'.registry
    → victims es ≡ []
    → d'.killcnt ≡ d.killcnt
    → Progress d least d' es
unfolding count_all
silent-Progress d d' least es f e c = record { follows = f; allowed = rw e tt; counted = rw e c }

-- The search for the heaviest kills nothing.
pub record Silent (d : Daemon) (st : Stepped) : Type 0 where
  pub effects : victims st.1 ≡ []
  pub killcnt : st.0.killcnt ≡ d.killcnt

swept_effects : (b : Bool) (fd : Option ℤ) → victims (if b then closing fd else []) ≡ []
unfolding victims
swept_effects true fd = victims-closing fd
swept_effects false fd = refl

swept_killcnt :
    (b : Bool) (d : Daemon) (r : Registry)
    → (if b then record d { registry = r } else d).killcnt ≡ d.killcnt
swept_killcnt true d r = refl
swept_killcnt false d r = refl

heaviest_of-Silent :
    (k : Kernel) (d : Daemon) (pids : List ℤ) (best : Option ℤ) (m : ℤ)
    → Silent d (heaviest_of k d pids best m).0
unfolding heaviest_of victims
heaviest_of-Silent k d [] best m = record { effects = refl; killcnt = refl }
heaviest_of-Silent k d (pid ∷ pids) best m =
    let b = k.size pid <? pos 0 in
    let gone = pid_remove d.last_kill d.registry pid in
    let d' = if b then record d { registry = gone.registry } else d in
    let best' = if m <? k.size pid then some pid else best in
    let m' = if m <? k.size pid then k.size pid else m in
    let h = heaviest_of-Silent k d' pids best' m' in
    let rest = (heaviest_of k d' pids best' m').0.1 in
    record {
      effects =
          victims-append (if b then closing gone.closed else []) rest
          ∙ rw (swept_effects b gone.closed, h.effects) refl;
      killcnt = h.killcnt ∙ swept_killcnt b d gone.registry;
    }

proc_get_heaviest-Silent :
    (k : Kernel) (d : Daemon) (pids : List ℤ) → Silent d (proc_get_heaviest k d pids).0
unfolding proc_get_heaviest victims
proc_get_heaviest-Silent k d [] = record { effects = refl; killcnt = refl }
proc_get_heaviest-Silent k d (pid ∷ []) = record { effects = refl; killcnt = refl }
proc_get_heaviest-Silent k d (pid ∷ next ∷ pids) =
    heaviest_of-Silent k d (pid ∷ next ∷ pids) none (pos 0)

pub choose_victim-Silent :
    (k : Kernel) (d : Daemon) (heaviest : Bool) (i : ℤ) → Silent d (choose_victim k d heaviest i).0
unfolding choose_victim victims
choose_victim-Silent k d heaviest i = elim (Bool-cases heaviest) [
  | inl e ↦ rw e (proc_get_heaviest-Silent k d (d.registry.slots (adj_to_slot i)))
  | inr e ↦ rw e (record { effects = refl; killcnt = refl })
]

pub choose_victim-Progress :
    (k : Kernel) (d : Daemon) (heaviest : Bool) (i least : ℤ)
    → IsValid d.registry
    → Progress d least (choose_victim k d heaviest i).0.0 (choose_victim k d heaviest i).0.1
choose_victim-Progress k d heaviest i least v =
    let h = choose_victim-Silent k d heaviest i in
    silent-Progress d (choose_victim k d heaviest i).0.0 least (choose_victim k d heaviest i).0.1
      (choose_victim-Follows k d heaviest i v) h.effects h.killcnt

module _ (s : Setup) (k : Kernel) (d : Daemon) (p : Proc) (tm : Timespec) (least : ℤ)
    (v : IsValid d.registry) (here : pid_lookup d.registry p.pid ≡ some p) where
  pub kill_one_process-Progress :
      least ≤ℤ p.oomadj
      → Progress d least (kill_one_process s k d p tm).daemon (kill_one_process s k d p tm).effects
  kill_one_process-Progress low =
      let o = kill_one_process s k d p tm in
      let t = kill_one_process-Attempt s k d p tm in
      let f : Follows d.registry o.daemon.registry = elim t.tables [
        | inl (e, r) ↦ rw e (same-Follows d.registry v)
        | inr (fd, e) ↦ rw e (pid_remove-Follows fd d.registry p.pid v)
      ] in
      elim t.kills [
        | inl (e, c) ↦ silent-Progress d o.daemon least o.effects f e c
        | inr (e, c, r) ↦ record {
          follows = f;
          allowed = rw e ((low, rw here refl), tt);
          counted = rw (e, c) (unfold count_all in refl);
        }
      ]

  -- A failed attempt takes the victim's node out of its list.
  pub kill_one_process-shorter :
      (kill_one_process s k d p tm).result <ℤ pos 0
      → length ((kill_one_process s k d p tm).daemon.registry.slots (adj_to_slot p.oomadj))
        < length (d.registry.slots (adj_to_slot p.oomadj))
  kill_one_process-shorter failed = elim (kill_one_process-Attempt s k d p tm).tables [
    | inl (e, r) ↦ absurd (ground (arith, r, failed))
    | inr (fd, e) ↦ rw e (pid_remove-shorter fd d.registry p.pid p v here)
  ]

-- At most one process was killed, and if one was then the result is positive.
pub record Once (o : Outcome) : Type 0 where
  pub at_most : length (victims o.effects) ≤ 1
  pub positive : 0 < length (victims o.effects) → pos 0 <ℤ o.result

-- Every process whose memory can be read has a page of it.
abbrev pub HasPages : Setup → Kernel → Type 0
HasPages s k = (pid rss : ℤ) → k.rss_kb pid ≡ some rss → s.page_k ≤ℤ rss

/ℤ-positive : (a b : ℤ) → pos 0 <ℤ b → b ≤ℤ a → pos 0 <ℤ a /ℤ b
unfolding ◌/ℤ◌
/ℤ-positive (pos a) (pos b) h l = grind arith
/ℤ-positive (negsuc a) (pos b) h l = absurd (omega arith)
/ℤ-positive a (negsuc b) h l = absurd (omega arith)

pub kill_one_process-Once :
    (s : Setup) (k : Kernel) (d : Daemon) (p : Proc) (tm : Timespec)
    → pos 0 <ℤ s.page_k
    → HasPages s k
    → Once (kill_one_process s k d p tm)
kill_one_process-Once s k d p tm page big = elim (kill_one_process-Attempt s k d p tm).kills [
  | inl (e, c) ↦ record {
    at_most = rw e (omega arith);
    positive = rw e (λ h. absurd (omega arith));
  }
  | inr (e, c, (rss, f, r)) ↦ record {
    at_most = rw e (omega arith);
    positive = λ h. rw r (/ℤ-positive rss s.page_k page (big p.pid rss f));
  }
]
