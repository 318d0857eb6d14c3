-- ===== src/Http/Server/Metrics/Interleaved.antt =====
-- http/server/metrics.go: the reports of any number of requests of one endpoint, interleaved. Each
-- report appends to the endpoint's slice of static attributes, and later reads what it has made.
use krakend_otel.Prelude.{
  ℕ, ◌+◌, ◌≡◌, ◌<◌, refl, sym, subst, ◌∙◌, ap, List, ◌++◌, leb, ◌==◌, false, Bool-cases, inl, inr,
  if◌then◌else◌, Slice, Heap, contents, IsGood, contents-append, append-kept, arith, length,
}
use krakend_otel.Telemetry.{Attribute}
use krakend_otel.Http.Attributes.{HttpRequest}
use krakend_otel.Http.Server.Tracking.{Tracking}
use krakend_otel.Http.Server.Metrics.{MetricsHttp, sample_attrs, dynamic_attrs}
use krakend_otel.Http.Server.Metrics.Shared.{append_attrs, read_attrs}

-- Where the report of a request stands.
pub data Phase : Type 0 where
  waiting : Phase
  appended : Slice → Phase
  reported : List Attribute → Phase

-- The memory, and where the report of each request stands.
pub record Reports : Type 0 where
  pub memory : Heap Attribute
  pub phase : ℕ → Phase

abbrev pub update : (ℕ → Phase) → ℕ → Phase → ℕ → Phase
update f i p j = if j == i then p else f j

module _ (grow : ℕ → ℕ) (m : MetricsHttp) (static : Slice) (track : ℕ → Tracking)
    (req : ℕ → HttpRequest) where
  abbrev pub after_append : Reports → ℕ → Reports
  after_append s i =
      let (h, made) = append_attrs grow static (track i) (req i) s.memory in
      record { memory = h; phase = update s.phase i (appended made) }

  pub data Step (s : Reports) : Reports → Type 0 where
    appends : (i : ℕ) → s.phase i ≡ waiting → Step s (after_append s i)
    reads :
        (i : ℕ) (made : Slice)
        → s.phase i ≡ appended made
        → Step s
            (record s { phase = update s.phase i (reported (read_attrs grow m (s.memory, made))) })

  pub data Reach (h : Heap Attribute) : Reports → Type 0 where
    start : Reach h (record { memory = h; phase = λ i. waiting })
    later : {s t : Reports} → Reach h s → Step s t → Reach h t

module _ (grow : ℕ → ℕ) (m : MetricsHttp) (static : Slice) (track : ℕ → Tracking)
    (req : ℕ → HttpRequest) (h0 : Heap Attribute) where
  -- What is appended but not read yet is the request's own, and so is what is reported.
  abbrev IsOwn : Heap Attribute → ℕ → Phase → Type 0
  IsOwn h i waiting = Unit
  IsOwn h i (appended made) =
      (made.array < h.fresh)
      × (contents h made ≡ contents h0 static ++ dynamic_attrs (track i) (req i))
  IsOwn h i (reported attrs) = attrs ≡ sample_attrs m (track i) (req i)

  -- The endpoint's slice is as it was, and each report has its own attributes.
  record Inv (s : Reports) : Type 0 where
    good : IsGood s.memory static
    kept : contents s.memory static ≡ contents h0 static
    own : (i : ℕ) → IsOwn s.memory i (s.phase i)

  update-IsOwn :
      (h : Heap Attribute) (f : ℕ → Phase) (i : ℕ) (p : Phase)
      → IsOwn h i p
      → ((j : ℕ) → IsOwn h j (f j))
      → (j : ℕ) → IsOwn h j (update f i p j)
  update-IsOwn h f i p o others j = elim (Bool-cases (j == i)) [
    | inl same ↦ let at : i ≡ j = ground (arith, same) in rw same (subst (λ k. IsOwn h k p) at o)
    | inr other ↦ rw other (others j)
  ]

  module _ (full : leb (static.len + 4) static.cap ≡ false)
      (shared : (i : ℕ) → (track i).metrics_static_attrs ≡ contents h0 static) where
    IsOwn-append :
        (h : Heap Attribute) (i j : ℕ) (p : Phase)
        → IsOwn h j p
        → IsOwn (append_attrs grow static (track i) (req i) h).0 j p
    unfolding append_attrs
    IsOwn-append h i j waiting o = o
    IsOwn-append h i j (appended made) (lt, is) =
        let (same, _, fresh, _) =
          append-kept grow static (dynamic_attrs (track i) (req i)) h made full lt in
        (omega arith, same ∙ is)
    IsOwn-append h i j (reported attrs) o = o

    -- What is appended is made in an array of its own.
    appended-IsOwn :
        (h : Heap Attribute) (i : ℕ)
        → IsGood h static
        → contents h static ≡ contents h0 static
        → IsOwn
            (append_attrs grow static (track i) (req i) h).0
            i
            (appended (append_attrs grow static (track i) (req i) h).1)
    unfolding append_attrs
    appended-IsOwn h i (fits, lt) kept =
        let xs = dynamic_attrs (track i) (req i) in
        let (_, _, fresh, array) = append-kept grow static xs h static full lt in
        (omega arith, contents-append grow static xs h (fits, lt) ∙ ap (λ l. l ++ xs) kept)

    after_append-Inv :
        (s : Reports) (i : ℕ) → Inv s → Inv (after_append grow m static track req s i)
    unfolding append_attrs
    after_append-Inv s i inv =
        let xs = dynamic_attrs (track i) (req i) in
        let (fits, lt) = inv.good in
        let (same, cells, fresh, _) = append-kept grow static xs s.memory static full lt in
        record {
          good = (omega (arith, ap length cells), omega arith);
          kept = same ∙ inv.kept;
          own =
              update-IsOwn (append_attrs grow static (track i) (req i) s.memory).0 s.phase i _
                (appended-IsOwn s.memory i inv.good inv.kept)
                (λ j. IsOwn-append s.memory i j (s.phase j) (inv.own j));
        }

    read-IsOwn :
        (h : Heap Attribute) (i : ℕ) (made : Slice)
        → IsOwn h i (appended made)
        → IsOwn h i (reported (read_attrs grow m (h, made)))
    read-IsOwn h i made (lt, is) =
        ap (λ l. m.fixed_attrs ++ l)
          (is ∙ ap (λ l. l ++ dynamic_attrs (track i) (req i)) (sym (shared i)))

    Step-Inv : {s t : Reports} → Step grow m static track req s t → Inv s → Inv t
    Step-Inv {s} (appends i w) inv = after_append-Inv s i inv
    Step-Inv {s} (reads i made e) inv = record {
      good = inv.good;
      kept = inv.kept;
      own =
          update-IsOwn s.memory s.phase i _
            (read-IsOwn s.memory i made (subst (IsOwn s.memory i) e (inv.own i))) inv.own;
    }

    Reach-Inv : {s : Reports} → IsGood h0 static → Reach grow m static track req h0 s → Inv s
    Reach-Inv good start = record { good = good; kept = refl; own = λ i. tt }
    Reach-Inv good (later r st) = Step-Inv st (Reach-Inv good r)

    -- Where the endpoint's slice has no room for four more elements, any number of requests can be
    -- reported at the same time, in any order of their steps: each is reported with the attributes
    -- of its own samples.
    pub Reach-sample_attrs :
        {s : Reports}
        → IsGood h0 static
        → Reach grow m static track req h0 s
        → (i : ℕ) (attrs : List Attribute) → s.phase i ≡ reported attrs
        → attrs ≡ sample_attrs m (track i) (req i)
    Reach-sample_attrs {s} good r i attrs e = subst (IsOwn s.memory i) e ((Reach-Inv good r).own i)
