-- ===== src/Monitors/Ledger.antt =====
-- The books of the monitors: each step keeps the number of events and of open descriptors in step with
-- the levels that are watched.
use system_memory_lmkd.Base.{
  ℕ, zero, suc, ◌+◌, ◌<◌, ◌≡◌, refl, Bool, true, false, some, List, [], ◌∷◌, ◌++◌, arith, inl, inr,
  Bool-cases, update, if◌then◌else◌,
}
use system_memory_lmkd.Base.Int.{
  ℤ, pos, negsuc, ◌<?◌, ◌==ℤ◌, +ℤ_parts, -ℤ_parts, pos_part, neg_part,
}
use system_memory_lmkd.Monitors.{
  Monitors, Handler, FdEffect, opens, closes, PressureFiles, stay, register, init_mp_psi,
  init_psi_monitor, destroy_mp, init_mp_common, common_handler, psi_handler,
}

unfoldable pub opened : ℤ → List FdEffect → ℕ
opened q [] = 0
opened q (opens fd ∷ es) = (if fd ==ℤ q then 1 else 0) + opened q es
opened q (closes fd ∷ es) = opened q es

unfoldable pub closed : ℤ → List FdEffect → ℕ
closed q [] = 0
closed q (opens fd ∷ es) = closed q es
closed q (closes fd ∷ es) = (if fd ==ℤ q then 1 else 0) + closed q es

-- Of one level: whether it is watched, and whether by this descriptor.
abbrev pub watch : ℤ → ℕ
watch fd = if fd <? pos 0 then 0 else 1

abbrev pub hold : ℤ → ℤ → ℕ
hold q fd = if fd <? pos 0 then 0 else if fd ==ℤ q then 1 else 0

-- Over the three levels.
abbrev pub total : (ℤ → ℕ) → (ℕ → ℤ) → ℕ
total g f = g (f 0) + g (f 1) + g (f 2)

abbrev pub watched : Monitors → ℕ
watched m = total watch m.mpevfd

abbrev pub held : ℤ → Monitors → ℕ
held q m = total (hold q) m.mpevfd

total-update :
    (g : ℤ → ℕ) (f : ℕ → ℤ) (level : ℕ) (fd : ℤ)
    → level < 3
    → total g (update f level fd) + g (f level) ≡ total g f + g fd
total-update g f zero fd h = omega arith
total-update g f (suc zero) fd h = omega arith
total-update g f (suc (suc zero)) fd h = omega arith
total-update g f (suc (suc (suc level))) fd h = absurd (omega (arith, h))

-- Two integers that differ as the numbers do, by the parts.
abbrev pub DifferAs : ℤ → ℤ → ℕ → ℕ → Type 0
DifferAs a b x y = pos_part a + neg_part b + y ≡ neg_part a + pos_part b + x

watch-one : (fd : ℤ) → (fd <? pos 0) ≡ false → watch fd ≡ 1
watch-one fd e = rw e refl

watch-none : (fd : ℤ) → (fd <? pos 0) ≡ true → watch fd ≡ 0
watch-none fd e = rw e refl

hold-one : (q fd : ℤ) → (fd <? pos 0) ≡ false → hold q fd ≡ (if fd ==ℤ q then 1 else 0)
hold-one q fd e = rw e refl

hold-none : (q fd : ℤ) → (fd <? pos 0) ≡ true → hold q fd ≡ 0
hold-none q fd e = rw e refl

opened-append : (q : ℤ) (xs ys : List FdEffect) → opened q (xs ++ ys) ≡ opened q xs + opened q ys
unfolding opened
opened-append q [] ys = omega arith
opened-append q (opens fd ∷ xs) ys = omega (arith, opened-append q xs ys)
opened-append q (closes fd ∷ xs) ys = opened-append q xs ys

closed-append : (q : ℤ) (xs ys : List FdEffect) → closed q (xs ++ ys) ≡ closed q xs + closed q ys
unfolding closed
closed-append q [] ys = omega arith
closed-append q (opens fd ∷ xs) ys = closed-append q xs ys
closed-append q (closes fd ∷ xs) ys = omega (arith, closed-append q xs ys)

-- Every event counted is a level watched, and every descriptor left open is held by a level, but for
-- those leaked.
pub record Kept (leak : ℤ → ℕ) (m m' : Monitors) (es : List FdEffect) : Type 0 where
  pub events : DifferAs m'.maxevents m.maxevents (watched m') (watched m)
  pub descriptors : (q : ℤ) → opened q es + held q m ≡ closed q es + held q m' + leak q

abbrev pub no_leak : ℤ → ℕ
no_leak q = 0

pub same-Kept : (m : Monitors) → Kept no_leak m m []
unfolding opened closed
same-Kept m = record { events = omega arith; descriptors = λ q. omega arith }

pub then-Kept :
    (f g : ℤ → ℕ) (a b c : Monitors) (xs ys : List FdEffect)
    → Kept f a b xs
    → Kept g b c ys
    → Kept (λ q. f q + g q) a c (xs ++ ys)
then-Kept f g a b c xs ys p q = record {
  events = omega (arith, p.events, q.events);
  descriptors = λ d.
      omega (arith, opened-append d xs ys, closed-append d xs ys, p.descriptors d, q.descriptors d);
}

-- A destroyed level, of the three.
pub destroy-Kept :
    (m : Monitors) (level : ℕ)
    → level < 3
    → Kept no_leak m (destroy_mp level m).monitors (destroy_mp level m).effects
unfolding destroy_mp stay opened closed
destroy-Kept m level h =
    let fd = m.mpevfd level in
    elim (Bool-cases (fd <? pos 0)) [
      | inl e ↦ rw (e, destroy_mp) (same-Kept m)
      | inr e ↦
          rw (e, destroy_mp)
            (record {
              events = omega (
                arith,
                total-update watch m.mpevfd level (negsuc 0) h,
                watch-one fd e,
                -ℤ_parts m.maxevents (pos 1),
              );
              descriptors = λ q.
                  omega (arith, total-update (hold q) m.mpevfd level (negsuc 0) h, hold-one q fd e);
            })
    ]

-- A registered monitor, at a level that was not watched.
register-Kept :
    (m : Monitors) (level : ℕ) (fd : ℤ) (h : Handler) (leak : ℤ → ℕ) (es : List FdEffect)
    → level < 3
    → (m.mpevfd level <? pos 0) ≡ true
    → (fd <? pos 0) ≡ false
    → ((q : ℤ) → opened q es ≡ closed q es + (if fd ==ℤ q then 1 else 0) + leak q)
    → Kept leak m (register m level fd h) es
unfolding register
register-Kept m level fd h leak es l e f es_sum = record {
  events = omega (
    arith,
    total-update watch m.mpevfd level fd l,
    watch-one fd f,
    watch-none (m.mpevfd level) e,
    +ℤ_parts m.maxevents (pos 1),
  );
  descriptors = λ q. omega (
    arith,
    total-update (hold q) m.mpevfd level fd l,
    hold-one q fd f,
    hold-none q (m.mpevfd level) e,
    es_sum q,
  );
}

-- A step that closes what it opens, and watches what was watched.
quiet-Kept :
    (m m' : Monitors) (es : List FdEffect)
    → m'.mpevfd ≡ m.mpevfd
    → m'.maxevents ≡ m.maxevents
    → ((q : ℤ) → opened q es ≡ closed q es)
    → Kept no_leak m m' es
quiet-Kept m m' es e f es_sum = record {
  events = rw (e, f) (omega arith);
  descriptors = λ q. rw e (omega (arith, es_sum q));
}

init_psi_monitor-opens :
    (k : PressureFiles) (level : ℕ) (threshold_ms : ℤ)
    → (k.psi_file level <? pos 0) ≡ false
    → k.psi_trigger level threshold_ms ≡ true
    → init_psi_monitor k level threshold_ms ≡ (k.psi_file level, opens (k.psi_file level) ∷ [])
unfolding init_psi_monitor
init_psi_monitor-opens k level threshold_ms b t = rw (b, t)

pub init_psi-Kept :
    (k : PressureFiles) (m : Monitors) (level : ℕ) (new : Bool)
    → level < 3
    → (m.mpevfd level <? pos 0) ≡ true
    → Kept no_leak m (init_mp_psi k level new m).monitors (init_mp_psi k level new m).effects
unfolding init_mp_psi init_psi_monitor stay opened closed
init_psi-Kept k m level new l e =
    let fd = k.psi_file level in
    let handles = if new then psi_handler else common_handler in
    elim (Bool-cases (m.threshold_ms level ==ℤ pos 0)) [
      | inl a ↦ rw (a, init_mp_psi) (same-Kept m)
      | inr a ↦ elim (Bool-cases (fd <? pos 0)) [
        | inl b ↦ rw (a, b, init_mp_psi, init_psi_monitor) (same-Kept m)
        | inr b ↦ elim (Bool-cases (k.psi_trigger level (m.threshold_ms level))) [
          | inr t ↦
              rw (a, b, t, init_mp_psi, init_psi_monitor)
                (quiet-Kept m m (opens fd ∷ closes fd ∷ []) refl refl (λ q. omega arith))
          | inl t ↦ elim (Bool-cases (k.epoll_add fd)) [
            | inl w ↦
                rw (a, init_psi_monitor-opens k level (m.threshold_ms level) b t, b, w, init_mp_psi)
                  (register-Kept m level fd handles no_leak (opens fd ∷ []) l e b
                    (λ q. omega arith))
            | inr w ↦
                rw (a, init_psi_monitor-opens k level (m.threshold_ms level) b t, b, w, init_mp_psi)
                  (quiet-Kept m (record m { handler = update m.handler level (some handles) })
                    (opens fd ∷ closes fd ∷ []) refl refl (λ q. omega arith))
          ]
        ]
      ]
    ]

-- A monitor of a memory cgroup leaks the descriptor of its pressure file.
abbrev pub pressure_file : PressureFiles → ℕ → ℤ → ℕ
pressure_file k level q = if k.mp_file level ==ℤ q then 1 else 0

pub init_common-Kept :
    (k : PressureFiles) (m : Monitors) (level : ℕ)
    → level < 3
    → (m.mpevfd level <? pos 0) ≡ true
    → Kept
        (if (init_mp_common k level m).ok then pressure_file k level else no_leak)
        m
        (init_mp_common k level m).monitors
        (init_mp_common k level m).effects
unfolding init_mp_common stay opened closed
init_common-Kept k m level l e =
    let mpfd = k.mp_file level in
    let evctlfd = k.evctl_file level in
    let evfd = k.eventfd level in
    let failed =
      opens mpfd ∷ opens evctlfd ∷ opens evfd ∷ closes evfd ∷ closes evctlfd ∷ closes mpfd ∷ [] in
    let m' = record m { handler = update m.handler level (some common_handler) } in
    elim (Bool-cases k.is_memcg_v1) [
      | inr a ↦ simp (a, init_mp_common) (same-Kept m)
      | inl a ↦ elim (Bool-cases (mpfd <? pos 0)) [
        | inl b ↦ simp (a, b, init_mp_common) (same-Kept m)
        | inr b ↦ elim (Bool-cases (evctlfd <? pos 0)) [
          | inl t ↦
              simp (a, b, t, init_mp_common)
                (quiet-Kept m m (opens mpfd ∷ closes mpfd ∷ []) refl refl (λ q. omega arith))
          | inr t ↦ elim (Bool-cases (evfd <? pos 0)) [
            | inl w ↦
                simp (a, b, t, w, init_mp_common)
                  (quiet-Kept m m (opens mpfd ∷ opens evctlfd ∷ closes evctlfd ∷ closes mpfd ∷ [])
                    refl refl (λ q. omega arith))
            | inr w ↦ elim (Bool-cases (k.evctl_write level)) [
              | inr y ↦
                  simp (a, b, t, w, y, init_mp_common)
                    (quiet-Kept m m failed refl refl (λ q. omega arith))
              | inl y ↦ elim (Bool-cases (k.epoll_add evfd)) [
                | inr z ↦
                    simp (a, b, t, w, y, z, init_mp_common)
                      (quiet-Kept m m' failed refl refl (λ q. omega arith))
                | inl z ↦
                    simp (a, b, t, w, y, z, init_mp_common)
                      (register-Kept m level evfd common_handler (pressure_file k level)
                        (opens mpfd ∷ opens evctlfd ∷ opens evfd ∷ closes evctlfd ∷ []) l e w
                        (λ q. omega arith))
              ]
            ]
          ]
        ]
      ]
    ]
