-- ===== src/Radix/Kept.antt =====
-- What two trees of the same nodes, with other reference counts, have in common.
use free_token_intel.Prelude.{ℕ, ◌≡◌, refl, sym, ap, ◌∙◌, List, arith, drop}
use free_token_intel.Align.{align_down}
use free_token_intel.Radix.{Node, Forest, bare, node, compare_key}
use free_token_intel.Radix.View.{stored, IsTree}
use free_token_intel.Radix.Locks.{path_value}
use free_token_intel.Radix.Ledger.{Locks, IsCounted, SameSpans, SameSpans-pins}

same_span :
    (m n : Node)
    → (m.key ≡ n.key)
    → (m.value ≡ n.value)
    → (m.uuid ≡ n.uuid)
    → (m.timestamp ≡ n.timestamp)
    → m ≡ record n { ref_count = m.ref_count }
same_span m n k v u t i = record {
  key = k i;
  value = v i;
  ref_count = m.ref_count;
  timestamp = t i;
  uuid = u i;
}

-- One tree is the other up to the counts, so what reads no count is the same of both.
pub SameSpans-stored :
    (page_size : ℕ) (f g : Forest) (y : List ℕ)
    → SameSpans f g
    → stored page_size g y ≡ stored page_size f y
unfolding stored
SameSpans-stored page_size bare bare y e = refl
SameSpans-stored page_size bare (node n kids sibs) y e = absurd e
SameSpans-stored page_size (node n kids sibs) bare y e = absurd e
SameSpans-stored page_size (node n kids sibs) (node m kids' sibs') y e =
    let cut = align_down (compare_key n.key y) page_size in
    rw
      (
        e.0,
        e.1,
        SameSpans-stored page_size kids kids' (drop cut y) e.4,
        SameSpans-stored page_size sibs sibs' y e.5,
      )
      refl

pub SameSpans-path_value : (p : ℕ) (f g : Forest) → SameSpans f g → path_value p g ≡ path_value p f
unfolding path_value
SameSpans-path_value p bare bare e = refl
SameSpans-path_value p bare (node n kids sibs) e = absurd e
SameSpans-path_value p (node n kids sibs) bare e = absurd e
SameSpans-path_value p (node n kids sibs) (node m kids' sibs') e =
    rw (e.1, e.2, SameSpans-path_value p kids kids' e.4, SameSpans-path_value p sibs sibs' e.5) refl

pub SameSpans-IsTree :
    (page_size : ℕ) (f g : Forest) → SameSpans f g → IsTree page_size f → IsTree page_size g
SameSpans-IsTree page_size bare bare e t = tt
SameSpans-IsTree page_size bare (node n kids sibs) e t = absurd e
SameSpans-IsTree page_size (node n kids sibs) bare e t = absurd e
SameSpans-IsTree page_size (node n kids sibs) (node m kids' sibs') e t = (
  record {
    page = rw e.0 t.0.page;
    aligned = rw e.0 t.0.aligned;
    paired = rw (e.0, e.1) t.0.paired;
  },
  SameSpans-IsTree page_size kids kids' e.4 t.1,
  SameSpans-IsTree page_size sibs sibs' e.5 t.2,
)

-- The locks determine the counts.
pub counted_alike :
    (held : Locks) (f g : Forest) → SameSpans f g → IsCounted held f → IsCounted held g → g ≡ f
counted_alike held bare bare e c d = refl
counted_alike held bare (node n kids sibs) e c d = absurd e
counted_alike held (node n kids sibs) bare e c d = absurd e
counted_alike held (node n kids sibs) (node m kids' sibs') e c d =
    let own : held m.uuid ≡ held n.uuid = ap held e.2 in
    let count : m.ref_count ≡ n.ref_count =
      omega (arith, own, c.0, d.0, SameSpans-pins held kids kids' e.4) in
    let here : m ≡ n = same_span m n e.0 e.1 e.2 e.3 ∙ ap (λ r. record n { ref_count = r }) count in
    rw (here, counted_alike held kids kids' e.4 c.1 d.1, counted_alike held sibs sibs' e.5 c.2 d.2)
      refl

pub SameSpans-sym : (f g : Forest) → SameSpans f g → SameSpans g f
SameSpans-sym bare bare e = tt
SameSpans-sym bare (node n kids sibs) e = absurd e
SameSpans-sym (node n kids sibs) bare e = absurd e
SameSpans-sym (node n kids sibs) (node m kids' sibs') e =
    (sym e.0, sym e.1, sym e.2, sym e.3, SameSpans-sym kids kids' e.4, SameSpans-sym sibs sibs' e.5)

pub SameSpans-trans : (f g h : Forest) → SameSpans f g → SameSpans g h → SameSpans f h
SameSpans-trans bare bare h d e = e
SameSpans-trans bare (node n kids sibs) h d e = absurd d
SameSpans-trans (node n kids sibs) bare h d e = absurd d
SameSpans-trans (node n kids sibs) (node m kids' sibs') bare d e = absurd e
SameSpans-trans (node n kids sibs) (node m kids' sibs') (node o kids'' sibs'') d e = (
  e.0 ∙ d.0,
  e.1 ∙ d.1,
  e.2 ∙ d.2,
  e.3 ∙ d.3,
  SameSpans-trans kids kids' kids'' d.4 e.4,
  SameSpans-trans sibs sibs' sibs'' d.5 e.5,
)
