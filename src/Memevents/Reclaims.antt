-- ===== src/Memevents/Reclaims.antt =====
-- What a batch of memory events leaves of the times at which reclaim started.
use system_memory_lmkd.Base.{
  ℕ, ◌≡◌, refl, ◌∙◌, false, Option, some, List, [], ◌∷◌, ◌++◌, arith, All, length, ap, ◌<◌,
}
use system_memory_lmkd.Pressure.{Reclaim}
use system_memory_lmkd.Pressure.Decision.{vendor}
use system_memory_lmkd.Pressure.Event.{Config}
use system_memory_lmkd.Pressure.Outcome.{IsLeast, IsLeastOf}
use system_memory_lmkd.Pressure.Safety.{mp_event_psi-Safe}
use system_memory_lmkd.Kill.Removal.{Follows, same-Follows, then-Follows}
use system_memory_lmkd.Registry.Invariant.{IsValid}
use system_memory_lmkd.Memevents.{
  MemEvent, direct_reclaim_begin, direct_reclaim_end, kswapd_wake, kswapd_sleep, other,
  vendor_lmk_kill, update_zoneinfo, State, set_direct, set_kswapd, update_zoneinfo_watermarks,
  after_vendor, handle, handle_all, memevent_listener_notification,
}
use system_memory_lmkd.Time.{Timespec, zero_tm}

-- The times by the last event of each kind: those of direct reclaim and those of kswapd.
abbrev pub direct_start : Timespec → List MemEvent → Timespec → Timespec
direct_start tm [] t = t
direct_start tm (direct_reclaim_begin ∷ es) t = direct_start tm es tm
direct_start tm (direct_reclaim_end ∷ es) t = direct_start tm es zero_tm
direct_start tm (kswapd_wake ∷ es) t = direct_start tm es t
direct_start tm (kswapd_sleep ∷ es) t = direct_start tm es t
direct_start tm (other ∷ es) t = direct_start tm es t
direct_start tm (vendor_lmk_kill reason least k r ∷ es) t = direct_start tm es t
direct_start tm (update_zoneinfo zi ∷ es) t = direct_start tm es t

abbrev pub kswapd_start : Timespec → List MemEvent → Timespec → Timespec
kswapd_start tm [] t = t
kswapd_start tm (kswapd_wake ∷ es) t = kswapd_start tm es tm
kswapd_start tm (kswapd_sleep ∷ es) t = kswapd_start tm es zero_tm
kswapd_start tm (direct_reclaim_begin ∷ es) t = kswapd_start tm es t
kswapd_start tm (direct_reclaim_end ∷ es) t = kswapd_start tm es t
kswapd_start tm (other ∷ es) t = kswapd_start tm es t
kswapd_start tm (vendor_lmk_kill reason least k r ∷ es) t = kswapd_start tm es t
kswapd_start tm (update_zoneinfo zi ∷ es) t = kswapd_start tm es t

abbrev pub started : Timespec → List MemEvent → Reclaim → Reclaim
started tm es r = record r {
  direct_reclaim_start_tm = direct_start tm es r.direct_reclaim_start_tm;
  kswapd_start_tm = kswapd_start tm es r.kswapd_start_tm;
}

-- What a vendor's event may ask for.
abbrev pub IsAccepted : MemEvent → Type 0
IsAccepted (vendor_lmk_kill reason least k r) = IsLeastOf (vendor reason least)
IsAccepted other_event = Unit

-- A run that ends.
pub record Handled (s : State) (reclaim : Reclaim) (run : Option State) : Type 0 where
  pub state : State
  pub ends : run ≡ some state
  pub reclaims : state.reclaim ≡ reclaim
  pub follows : Follows s.result.daemon.registry state.result.daemon.registry

started-cons :
    (tm : Timespec) (e : MemEvent) (es : List MemEvent) (r : Reclaim)
    → started tm es (started tm (e ∷ []) r) ≡ started tm (e ∷ es) r
started-cons tm direct_reclaim_begin es r = refl
started-cons tm direct_reclaim_end es r = refl
started-cons tm kswapd_wake es r = refl
started-cons tm kswapd_sleep es r = refl
started-cons tm other es r = refl
started-cons tm (vendor_lmk_kill reason least k q) es r = refl
started-cons tm (update_zoneinfo zi) es r = refl

module _ (c : Config) (after_min : IsLeast c.props.pressure_after_kill_min_score)
    (low_min : IsLeast c.props.lowmem_min_oom_score) (fuel : ℕ) (tm : Timespec) where
  kept-Handled :
      (s t : State)
      → IsValid s.result.daemon.registry
      → t.result.daemon ≡ s.result.daemon
      → Handled s t.reclaim (some t)
  kept-Handled s t v e = record {
    state = t;
    ends = refl;
    reclaims = refl;
    follows = rw e (same-Follows s.result.daemon.registry v);
  }

  handle-Handled :
      (e : MemEvent) (s : State)
      → IsAccepted e
      → IsValid s.result.daemon.registry
      → ((t : ℕ) → length (s.result.daemon.registry.slots t) < fuel)
      → Handled s (started tm (e ∷ []) s.reclaim) (handle c fuel tm e s)
  unfolding handle set_direct set_kswapd after_vendor
  handle-Handled direct_reclaim_begin s h v l = kept-Handled s (set_direct tm s) v refl
  handle-Handled direct_reclaim_end s h v l = kept-Handled s (set_direct zero_tm s) v refl
  handle-Handled kswapd_wake s h v l = kept-Handled s (set_kswapd tm s) v refl
  handle-Handled kswapd_sleep s h v l = kept-Handled s (set_kswapd zero_tm s) v refl
  handle-Handled other s h v l = kept-Handled s s v refl
  handle-Handled (update_zoneinfo zi) s h v l =
      let p = s.result in
      kept-Handled s
        (record s { result = record p { monitor = update_zoneinfo_watermarks zi p.monitor } }) v
        refl
  handle-Handled (vendor_lmk_kill reason least k r) s h v l =
      let p = s.result in
      let safe =
        mp_event_psi-Safe c (record r { reclaim = s.reclaim }) fuel k p.daemon p.monitor
          (vendor reason least) false p.poll after_min low_min h v l in
      let q = safe.result in
      rw (safe.ends, after_vendor)
        (record {
          state = record s { result = record q { effects = p.effects ++ q.effects } };
          ends = refl;
          reclaims = refl;
          follows = safe.follows;
        })

  handle_all-Handled :
      (es : List MemEvent) (s : State)
      → All IsAccepted es
      → IsValid s.result.daemon.registry
      → ((t : ℕ) → length (s.result.daemon.registry.slots t) < fuel)
      → Handled s (started tm es s.reclaim) (handle_all c fuel tm es s)
  unfolding handle_all
  handle_all-Handled [] s h v l = kept-Handled s s v refl
  handle_all-Handled (e ∷ es) s h v l =
      let one = handle-Handled e s h.0 v l in
      let rest =
        handle_all-Handled es one.state h.1 one.follows.well_formed
          (λ t. omega (arith, one.follows.fewer t, l t)) in
      rw (one.ends, handle_all)
        (record {
          state = rest.state;
          ends = rest.ends;
          reclaims =
              rest.reclaims ∙ (ap (started tm es) one.reclaims ∙ started-cons tm e es s.reclaim);
          follows =
              then-Follows s.result.daemon.registry one.state.result.daemon.registry
                rest.state.result.daemon.registry one.follows rest.follows;
        })

-- A batch of memory events is handled to its end, whatever the kernel answers, when the registry is
-- well formed, the configured scores are from 0 to 1001, a vendor's are at most 1001, and the fuel is
-- more than any slot has nodes. It leaves for direct reclaim the time of the batch if the last event
-- of that kind is the begin, zero if it is the end, and the earlier time if there is none, and for
-- kswapd likewise by its wakes and sleeps, whatever kills come in between; and it leaves a
-- well-formed registry with no record that was not there before.
pub notification-Ends :
    (c : Config) (fuel : ℕ) (tm : Timespec) (es : List MemEvent) (s : State)
    → IsLeast c.props.pressure_after_kill_min_score
    → IsLeast c.props.lowmem_min_oom_score
    → All IsAccepted es
    → IsValid s.result.daemon.registry
    → ((t : ℕ) → length (s.result.daemon.registry.slots t) < fuel)
    → (t : State) × (memevent_listener_notification c fuel (some tm) (some es) s ≡ some t)
      × (t.reclaim ≡ started tm es s.reclaim)
      × Follows s.result.daemon.registry t.result.daemon.registry
unfolding memevent_listener_notification
notification-Ends c fuel tm es s after_min low_min h v l =
    let run = handle_all-Handled c after_min low_min fuel tm es s h v l in
    (run.state, run.ends, run.reclaims, run.follows)
