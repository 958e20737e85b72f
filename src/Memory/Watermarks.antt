-- ===== src/Memory/Watermarks.antt =====
-- The watermark that is breached, and the watermarks of all zones together.
use system_memory_lmkd.Base.{
  ◌≤◌, ◌≡◌, refl, ◌∙◌, inl, inr, ◌↔◌, List, [], ◌∷◌, if◌then◌else◌, All, arith, Bool-cases,
}
use system_memory_lmkd.Base.Int.{ℤ, pos, ◌+ℤ◌, ◌-ℤ◌, ◌≤ℤ◌, ◌<ℤ◌, ◌==ℤ◌, int_laws}
use system_memory_lmkd.Memory.{
  Meminfo, wmark_rank, ZoneWatermarks, get_lowest_watermark, Zone, Node, add_zone, add_zones,
  add_nodes, calc_zone_watermarks,
}

zero-add : (a : ℤ) → pos 0 +ℤ a ≡ a
zero-add a = omega int_laws

abbrev pub IsOrdered : ZoneWatermarks → Type 0
IsOrdered w = (w.min_wmark ≤ℤ w.low_wmark) × (w.low_wmark ≤ℤ w.high_wmark)

abbrev pub unreserved : Meminfo → ℤ
unreserved mi = mi.nr_free_pages -ℤ mi.cma_free

-- With the watermarks in order, each is reported breached or worse exactly when the free pages outside
-- the reserve for contiguous allocation are below it.
pub get_lowest_watermark_lem :
    (mi : Meminfo) (w : ZoneWatermarks)
    → IsOrdered w
    → let rank = wmark_rank (get_lowest_watermark mi w) in
      ((rank ≤ 0) ↔ (unreserved mi <ℤ w.min_wmark))
      × ((rank ≤ 1) ↔ (unreserved mi <ℤ w.low_wmark))
      × ((rank ≤ 2) ↔ (unreserved mi <ℤ w.high_wmark))
unfolding get_lowest_watermark wmark_rank
get_lowest_watermark_lem mi w h = (
  (λ r. ground arith, λ r. ground arith),
  (λ r. ground arith, λ r. ground arith),
  (λ r. ground arith, λ r. ground arith),
)

abbrev pub ZoneIsOrdered : Zone → Type 0
ZoneIsOrdered z = (z.min ≤ℤ z.low) × (z.low ≤ℤ z.high)

abbrev pub NodeIsOrdered : Node → Type 0
NodeIsOrdered n = All ZoneIsOrdered n.zones

add_zone-IsOrdered :
    (w : ZoneWatermarks) (z : Zone) → IsOrdered w → ZoneIsOrdered z → IsOrdered (add_zone w z)
unfolding add_zone
add_zone-IsOrdered w z h k = elim (Bool-cases (z.present ==ℤ pos 0)) [
  | inl e ↦ rw e h
  | inr e ↦ rw e (omega int_laws)
]

add_zones-IsOrdered :
    (w : ZoneWatermarks) (zs : List Zone)
    → IsOrdered w
    → All ZoneIsOrdered zs
    → IsOrdered (add_zones w zs)
unfolding add_zones
add_zones-IsOrdered w [] h k = h
add_zones-IsOrdered w (z ∷ zs) h (k, ks) =
    add_zones-IsOrdered (add_zone w z) zs (add_zone-IsOrdered w z h k) ks

add_nodes-IsOrdered :
    (w : ZoneWatermarks) (ns : List Node)
    → IsOrdered w
    → All NodeIsOrdered ns
    → IsOrdered (add_nodes w ns)
unfolding add_nodes
add_nodes-IsOrdered w [] h k = h
add_nodes-IsOrdered w (n ∷ ns) h (k, ks) =
    add_nodes-IsOrdered (add_zones w n.zones) ns (add_zones-IsOrdered w n.zones h k) ks

-- Zones whose own watermarks are in order have total watermarks in order.
pub calc_zone_watermarks-IsOrdered :
    (nodes : List Node) → All NodeIsOrdered nodes → IsOrdered (calc_zone_watermarks nodes)
unfolding calc_zone_watermarks
calc_zone_watermarks-IsOrdered nodes h = add_nodes-IsOrdered _ nodes (omega arith) h

-- The contribution of one zone to a total.
abbrev pub share : (Zone → ℤ) → Zone → ℤ
share field z = if z.present ==ℤ pos 0 then pos 0 else z.max_protection +ℤ field z

unfoldable pub sum_zones : (Zone → ℤ) → List Zone → ℤ
sum_zones field [] = pos 0
sum_zones field (z ∷ zs) = share field z +ℤ sum_zones field zs

unfoldable pub sum_nodes : (Zone → ℤ) → List Node → ℤ
sum_nodes field [] = pos 0
sum_nodes field (n ∷ ns) = sum_zones field n.zones +ℤ sum_nodes field ns

-- `f` reads the total that `field` is added to.
module _ (f : ZoneWatermarks → ℤ) (field : Zone → ℤ)
    (step : (w : ZoneWatermarks) (z : Zone) → f (add_zone w z) ≡ f w +ℤ share field z) where
  add_zones-sum :
      (w : ZoneWatermarks) (zs : List Zone) → f (add_zones w zs) ≡ f w +ℤ sum_zones field zs
  unfolding add_zones sum_zones
  add_zones-sum w [] = omega int_laws
  add_zones-sum w (z ∷ zs) = rw (add_zones-sum (add_zone w z) zs, step w z) (omega int_laws)

  add_nodes-sum :
      (w : ZoneWatermarks) (ns : List Node) → f (add_nodes w ns) ≡ f w +ℤ sum_nodes field ns
  unfolding add_nodes sum_nodes
  add_nodes-sum w [] = omega int_laws
  add_nodes-sum w (n ∷ ns) =
      rw (add_nodes-sum (add_zones w n.zones) ns, add_zones-sum w n.zones) (omega int_laws)

add_zone-step :
    (w : ZoneWatermarks) (z : Zone)
    → ((add_zone w z).high_wmark ≡ w.high_wmark +ℤ share (λ y. y.high) z)
      × ((add_zone w z).low_wmark ≡ w.low_wmark +ℤ share (λ y. y.low) z)
      × ((add_zone w z).min_wmark ≡ w.min_wmark +ℤ share (λ y. y.min) z)
unfolding add_zone
add_zone-step w z = elim (Bool-cases (z.present ==ℤ pos 0)) [
  | inl e ↦ rw e (omega int_laws, omega int_laws, omega int_laws)
  | inr e ↦ rw e (refl, refl, refl)
]

-- Each total watermark is the sum, over the populated zones of all nodes, of the zone's largest
-- protection and its own watermark.
pub calc_zone_watermarks-sum :
    (nodes : List Node)
    → ((calc_zone_watermarks nodes).high_wmark ≡ sum_nodes (λ z. z.high) nodes)
      × ((calc_zone_watermarks nodes).low_wmark ≡ sum_nodes (λ z. z.low) nodes)
      × ((calc_zone_watermarks nodes).min_wmark ≡ sum_nodes (λ z. z.min) nodes)
unfolding calc_zone_watermarks
calc_zone_watermarks-sum nodes =
    let start : ZoneWatermarks = record {
      high_wmark = pos 0;
      low_wmark = pos 0;
      min_wmark = pos 0;
    } in
    (
      add_nodes-sum (λ w. w.high_wmark) (λ z. z.high) (λ w z. (add_zone-step w z).0) start nodes
          ∙ zero-add (sum_nodes (λ z. z.high) nodes),
      add_nodes-sum (λ w. w.low_wmark) (λ z. z.low) (λ w z. (add_zone-step w z).1) start nodes
          ∙ zero-add (sum_nodes (λ z. z.low) nodes),
      add_nodes-sum (λ w. w.min_wmark) (λ z. z.min) (λ w z. (add_zone-step w z).2) start nodes
          ∙ zero-add (sum_nodes (λ z. z.min) nodes),
    )
