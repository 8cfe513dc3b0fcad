-- ===== src/Scheduler/Prefill/Oids.antt =====
-- Which queued objects a prefill pass admits, by their identities.
use free_token_intel.Prelude.{
  ℕ, ◌+◌, ◌≤◌, ◌<◌, ◌≡◌, refl, ap, none, some, List, [], ◌∷◌, ◌++◌, map, arith, ltb, ◌==◌,
  if◌then◌else◌, count,
}
use free_token_intel.Scheduler.Req.{Req, PendingReq}
use free_token_intel.Scheduler.Refs.{Grows, Grows-refl, Grows-alloc}
use free_token_intel.Scheduler.Adder.{Adder}
use free_token_intel.Scheduler.Prefill.{Pass, admit, was_admitted, unadmitted}
use free_token_intel.Scheduler.Prefill.Walk.{Walks}

abbrev pub oids : List PendingReq → List ℕ
oids = map (λ p. p.oid)

was_admitted-count : (o : ℕ) (ps : List PendingReq) → was_admitted o ps ≡ ltb 0 (count o (oids ps))
unfolding was_admitted count
was_admitted-count o [] = refl
was_admitted-count o (p ∷ ps) = ground (arith, was_admitted-count o ps)

-- The queue's objects are distinct, also from those that the pass has admitted.
abbrev pub Apart : Pass → List PendingReq → Type 0
Apart s ps = (o : ℕ) → count o (oids s.admitted) + count o (oids ps) ≤ 1

pub oids-append :
    (o : ℕ) (ps qs : List PendingReq)
    → count o (oids (ps ++ qs)) ≡ count o (oids ps) + count o (oids qs)
unfolding count
oids-append o [] qs = omega arith
oids-append o (p ∷ ps) qs = omega (arith, oids-append o ps qs)

pub admitted_oids :
    (s : Pass) (p : PendingReq) (a : Adder) (r : Req) (o : ℕ)
    → count o (oids (admit s p a r).admitted)
      ≡ count o (oids s.admitted) + (if p.oid == o then 1 else 0)
unfolding admit count
admitted_oids s p a r o = omega (
  arith,
  oids-append o s.admitted
      (record p { chunked_req = if r.chunked then some s.heap.next_ref else none } ∷ []),
)

pub admit-Apart :
    (s : Pass) (p : PendingReq) (ps : List PendingReq) (a : Adder) (r : Req)
    → Apart s (p ∷ ps)
    → Apart (admit s p a r) ps
unfolding count
admit-Apart s p ps a r d o = omega (arith, d o, admitted_oids s p a r o)

pub tail-Apart : (s : Pass) (p : PendingReq) (ps : List PendingReq) → Apart s (p ∷ ps) → Apart s ps
unfolding count
tail-Apart s p ps d o = omega (arith, d o)

-- What a pass admits comes from its queue, and stays admitted.
pub Walks-admitted :
    {s t : Pass} {ps : List PendingReq}
    → Walks s ps t
    → (o : ℕ)
    → (count o (oids s.admitted) ≤ count o (oids t.admitted))
      × (count o (oids t.admitted) ≤ count o (oids s.admitted) + count o (oids ps))
unfolding count
Walks-admitted Walks.done o = omega arith
Walks-admitted (Walks.takes {s} {t} {p} {ps} a r h w) o =
    omega (arith, Walks-admitted w o, admitted_oids s p a r o)
Walks-admitted (Walks.stops e) o = omega arith
Walks-admitted (Walks.skips e w) o = omega (arith, Walks-admitted w o)

pub Walks-Grows : {s t : Pass} {ps : List PendingReq} → Walks s ps t → Grows s.heap t.heap
unfolding admit
Walks-Grows (Walks.done {s}) = Grows-refl s.heap
Walks-Grows (Walks.takes {s} {t} {p} {ps} a r h w) = Grows-alloc s.heap r (Walks-Grows w)
Walks-Grows (Walks.stops {s} e) = Grows-refl s.heap
Walks-Grows (Walks.skips e w) = Walks-Grows w

module _ (admitted : List PendingReq) (p : PendingReq) (ps : List PendingReq) where
  pub unadmitted_kept :
      count p.oid (oids admitted) ≡ 0 → unadmitted admitted (p ∷ ps) ≡ p ∷ unadmitted admitted ps
  unadmitted_kept h = ground (arith, was_admitted-count p.oid admitted)

  pub unadmitted_dropped :
      0 < count p.oid (oids admitted) → unadmitted admitted (p ∷ ps) ≡ unadmitted admitted ps
  unadmitted_dropped h = ground (arith, was_admitted-count p.oid admitted)

count-head : (p : PendingReq) (ps : List PendingReq) → 0 < count p.oid (oids (p ∷ ps))
unfolding count
count-head p ps = ground arith

-- Which requests of the queue a pass leaves there.
pub unadmitted_none : (s : Pass) (ps : List PendingReq) → Apart s ps → unadmitted s.admitted ps ≡ ps
unadmitted_none s [] d = refl
unadmitted_none s (p ∷ ps) d =
    rw (unadmitted_kept s.admitted p ps (omega (arith, d p.oid, count-head p ps)))
      (ap (◌∷◌ p) (unadmitted_none s ps (tail-Apart s p ps d)))

-- A request that the pass took is not left in the queue, one that it skipped is.
pub unadmitted_taken :
    (s t : Pass) (p : PendingReq) (ps : List PendingReq) (a : Adder) (r : Req)
    → Walks (admit s p a r) ps t
    → unadmitted t.admitted (p ∷ ps) ≡ unadmitted t.admitted ps
unadmitted_taken s t p ps a r w =
    unadmitted_dropped t.admitted p ps
      (ground (arith, Walks-admitted w p.oid, admitted_oids s p a r p.oid))

pub unadmitted_skipped :
    (s t : Pass) (p : PendingReq) (ps : List PendingReq)
    → Apart s (p ∷ ps)
    → Walks s ps t
    → unadmitted t.admitted (p ∷ ps) ≡ p ∷ unadmitted t.admitted ps
unfolding count
unadmitted_skipped s t p ps d w =
    unadmitted_kept t.admitted p ps (ground (arith, d p.oid, Walks-admitted w p.oid))
