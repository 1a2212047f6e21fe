-- ===== src/Lsq/Validate/Trees.antt =====
-- `validate_filter` of crates/postgresem-compiler/src/lsq.rs against the depth, the size and the
-- form of a filter tree.
use postgresem.Prelude.{
  ℕ, suc, ◌+◌, ◌≤◌, ◌<◌, ◌≡◌, ◌↔◌, refl, inl, inr, String, true, false, List, [], ◌∷◌, max, arith,
  length, All, ap, ◌∙◌, Bool-cases,
}
use postgresem.Prelude.Results.{Result, ok, ◌>>=◌, ◌>>◌, reject_if, Result-cases}
use postgresem.Prelude.Text.{is_blank}
use postgresem.Lsq.{
  Literal, Filter, Filters, nil, cons, LsqError, empty_logical_filter, max_filter_depth,
  max_filter_nodes, max_in_values,
}
use postgresem.Lsq.Literals.{is_well_formed}
use postgresem.Lsq.Validate.{
  validate_reference, validate_literal_value, validate_literal_values, enter_filter,
  validate_comparison, validate_in, validate_null_test, validate_filter, validate_filters,
  is_no_filter,
}

-- The levels of a filter tree, and its nodes.
unfoldable mutual
  pub depth : Filter → ℕ
  depth (Filter.and args) = suc (depth_all args)
  depth (Filter.or args) = suc (depth_all args)
  depth (Filter.not arg) = suc (depth arg)
  depth _ = 1

  pub depth_all : Filters → ℕ
  depth_all nil = 0
  depth_all (cons arg args) = max (depth arg) (depth_all args)

unfoldable mutual
  pub size : Filter → ℕ
  size (Filter.and args) = suc (size_all args)
  size (Filter.or args) = suc (size_all args)
  size (Filter.not arg) = suc (size arg)
  size _ = 1

  pub size_all : Filters → ℕ
  size_all nil = 0
  size_all (cons arg args) = size arg + size_all args

abbrev pub IsLiteral : Literal → Type 0
IsLiteral value = is_well_formed value ≡ true

abbrev pub IsComparison : String → Literal → Type 0
IsComparison field value = (is_blank field ≡ false) × IsLiteral value

abbrev pub IsInList : String → List Literal → Type 0
IsInList field values =
    (is_blank field ≡ false)
    × (1 ≤ length values)
    × (length values ≤ max_in_values)
    × All IsLiteral values

-- A filter whose every node has what its operator wants.
mutual
  pub data IsFilter : Filter → Type 0 where
    and_ok : (args : Filters) → 0 < size_all args → AreFilters args → IsFilter (Filter.and args)
    or_ok : (args : Filters) → 0 < size_all args → AreFilters args → IsFilter (Filter.or args)
    not_ok : (arg : Filter) → IsFilter arg → IsFilter (Filter.not arg)
    eq_ok : (f : String) (v : Literal) → IsComparison f v → IsFilter (Filter.eq f v)
    not_eq_ok : (f : String) (v : Literal) → IsComparison f v → IsFilter (Filter.not_eq f v)
    gt_ok : (f : String) (v : Literal) → IsComparison f v → IsFilter (Filter.gt f v)
    gte_ok : (f : String) (v : Literal) → IsComparison f v → IsFilter (Filter.gte f v)
    lt_ok : (f : String) (v : Literal) → IsComparison f v → IsFilter (Filter.lt f v)
    lte_ok : (f : String) (v : Literal) → IsComparison f v → IsFilter (Filter.lte f v)
    in_ok : (f : String) (vs : List Literal) → IsInList f vs → IsFilter (Filter.is_in f vs)
    null_ok : (f : String) → is_blank f ≡ false → IsFilter (Filter.is_null f)
    not_null_ok : (f : String) → is_blank f ≡ false → IsFilter (Filter.is_not_null f)

  pub data AreFilters : Filters → Type 0 where
    none_left : AreFilters nil
    one_more :
        (arg : Filter) (args : Filters)
        → IsFilter arg
        → AreFilters args
        → AreFilters (cons arg args)

enter_filter_iff :
    (depth node_count n : ℕ)
    → (enter_filter depth node_count ≡ ok n)
      ↔ ((depth ≤ max_filter_depth) × (node_count + 1 ≤ max_filter_nodes) × (n ≡ node_count + 1))
unfolding enter_filter
enter_filter_iff d c n = ground arith

validate_literal_values_iff :
    (values : List Literal) → (validate_literal_values values ≡ ok tt) ↔ All IsLiteral values
unfolding validate_literal_values validate_literal_value
validate_literal_values_iff [] = ground arith
validate_literal_values_iff (v ∷ vs) = ground (arith, validate_literal_values_iff vs)

validate_comparison_iff :
    (field : String) (value : Literal) (c n : ℕ)
    → (validate_comparison field value c ≡ ok n) ↔ (IsComparison field value × (n ≡ c))
unfolding validate_comparison validate_literal_value validate_reference
validate_comparison_iff field value c n = ground arith

validate_in_iff :
    (field : String) (values : List Literal) (c n : ℕ)
    → (validate_in field values c ≡ ok n) ↔ (IsInList field values × (n ≡ c))
unfolding validate_in validate_reference
validate_in_iff field [] c n = ground arith
validate_in_iff field (v ∷ vs) c n = ground (arith, validate_literal_values_iff (v ∷ vs))

validate_null_test_iff :
    (field : String) (c n : ℕ)
    → (validate_null_test field c ≡ ok n) ↔ ((is_blank field ≡ false) × (n ≡ c))
unfolding validate_null_test validate_reference
validate_null_test_iff field c n = ground arith

-- What acceptance says of a tree of this depth and size, entered at level `d` with `c` nodes seen.
abbrev Counts : ℕ → ℕ → ℕ → ℕ → ℕ → Type 0
Counts depth size d c n =
    (d + depth ≤ max_filter_depth + 1) × (c + size ≤ max_filter_nodes) × (n ≡ c + size)

-- A leaf: one node, then the arm's test, which keeps the count.
module _ {P Q : Type 0} (build : P → Q) (test : ℕ → Result LsqError ℕ)
    (test_iff : (c n : ℕ) → (test c ≡ ok n) ↔ (P × (n ≡ c))) (d c n : ℕ) where
  leaf_sound : (enter_filter d c >>= test) ≡ ok n → Q × Counts 1 1 d c n
  leaf_sound h = elim (Result-cases (enter_filter d c)) [
    | inl (m, e) ↦
        let entered = (enter_filter_iff d c m).0 e in
        let (p, same) = (test_iff m n).0 (rw e at h) in (build p, omega arith)
    | inr (x, e) ↦ ground arith
  ]

leaf_complete :
    {P : Type 0} (test : ℕ → Result LsqError ℕ)
    → ((c n : ℕ) → (test c ≡ ok n) ↔ (P × (n ≡ c)))
    → (d c : ℕ) → P
    → d + 1 ≤ max_filter_depth + 1
    → c + 1 ≤ max_filter_nodes
    → (enter_filter d c >>= test) ≡ ok (c + 1)
leaf_complete test test_iff d c p h k =
    rw ((enter_filter_iff d c (c + 1)).1 (omega arith)) ((test_iff (c + 1) (c + 1)).1 (p, refl))

-- A logical node: one node, then its arguments one level down.
abbrev logical : Filters → ℕ → ℕ → Result LsqError ℕ
logical args d c = do
  entered ← enter_filter d c
  reject_if (is_no_filter args) empty_logical_filter
  validate_filters args (d + 1) entered

size-pos : (f : Filter) → 1 ≤ size f
unfolding size
size-pos (Filter.and args) = omega arith
size-pos _ = omega arith

size_all-pos_iff : (args : Filters) → (is_no_filter args ≡ false) ↔ (0 < size_all args)
unfolding size
size_all-pos_iff nil = ground arith
size_all-pos_iff (cons arg args) = ground (arith, size-pos arg)

module _ (args : Filters) (d c n : ℕ) where
  logical_sound :
      ((m : ℕ)
        → d + 1 ≤ max_filter_depth + 1
        → m ≤ max_filter_nodes
        → validate_filters args (d + 1) m ≡ ok n
        → AreFilters args × Counts (depth_all args) (size_all args) (d + 1) m n)
      → logical args d c ≡ ok n
      → (0 < size_all args)
        × AreFilters args
        × Counts (suc (depth_all args)) (suc (size_all args)) d c n
  logical_sound ih h = elim (Result-cases (enter_filter d c)) [
    | inl (m, e) ↦
        let entered = (enter_filter_iff d c m).0 e in
        elim (Bool-cases (is_no_filter args)) [
          | inl empty ↦ ground arith
          | inr full ↦
              let (are, counts) = ih m (omega arith) (omega arith) (ground arith) in
              ((size_all-pos_iff args).0 full, are, omega arith)
        ]
    | inr (x, e) ↦ ground arith
  ]

logical_complete :
    (args : Filters) (d c : ℕ)
    → 0 < size_all args
    → d + suc (depth_all args) ≤ max_filter_depth + 1
    → c + suc (size_all args) ≤ max_filter_nodes
    → validate_filters args (d + 1) (c + 1) ≡ ok (c + 1 + size_all args)
    → 0 < depth_all args
    → logical args d c ≡ ok (c + suc (size_all args))
logical_complete args d c full h k ih deep =
    let entered = (enter_filter_iff d c (c + 1)).1 (omega arith) in
    let listed = (size_all-pos_iff args).1 full in
    let same : c + 1 + size_all args ≡ c + suc (size_all args) = omega arith in
    rw (entered, listed) (ih ∙ ap ok same)

mutual
  unfolding validate_filter depth size

  filter_sound :
      (f : Filter) (d c n : ℕ)
      → validate_filter f d c ≡ ok n
      → IsFilter f × Counts (depth f) (size f) d c n
  filter_sound (Filter.and args) d c n h =
      let (full, are, counts) = logical_sound args d c n (λ m. filters_sound args (d + 1) m n) h in
      (and_ok args full are, counts)
  filter_sound (Filter.or args) d c n h =
      let (full, are, counts) = logical_sound args d c n (λ m. filters_sound args (d + 1) m n) h in
      (or_ok args full are, counts)
  filter_sound (Filter.not arg) d c n h = elim (Result-cases (enter_filter d c)) [
    | inl (m, e) ↦
        let entered = (enter_filter_iff d c m).0 e in
        let (is, counts) = filter_sound arg (d + 1) m n (rw e at h) in (not_ok arg is, omega arith)
    | inr (x, e) ↦ ground arith
  ]
  filter_sound (Filter.eq f v) d c n h =
      leaf_sound (eq_ok f v) (validate_comparison f v) (validate_comparison_iff f v) d c n h
  filter_sound (Filter.not_eq f v) d c n h =
      leaf_sound (not_eq_ok f v) (validate_comparison f v) (validate_comparison_iff f v) d c n h
  filter_sound (Filter.gt f v) d c n h =
      leaf_sound (gt_ok f v) (validate_comparison f v) (validate_comparison_iff f v) d c n h
  filter_sound (Filter.gte f v) d c n h =
      leaf_sound (gte_ok f v) (validate_comparison f v) (validate_comparison_iff f v) d c n h
  filter_sound (Filter.lt f v) d c n h =
      leaf_sound (lt_ok f v) (validate_comparison f v) (validate_comparison_iff f v) d c n h
  filter_sound (Filter.lte f v) d c n h =
      leaf_sound (lte_ok f v) (validate_comparison f v) (validate_comparison_iff f v) d c n h
  filter_sound (Filter.is_in f vs) d c n h =
      leaf_sound (in_ok f vs) (validate_in f vs) (validate_in_iff f vs) d c n h
  filter_sound (Filter.is_null f) d c n h =
      leaf_sound (null_ok f) (validate_null_test f) (validate_null_test_iff f) d c n h
  filter_sound (Filter.is_not_null f) d c n h =
      leaf_sound (not_null_ok f) (validate_null_test f) (validate_null_test_iff f) d c n h

  filters_sound :
      (fs : Filters) (d c n : ℕ)
      → d ≤ max_filter_depth + 1
      → c ≤ max_filter_nodes
      → validate_filters fs d c ≡ ok n
      → AreFilters fs × Counts (depth_all fs) (size_all fs) d c n
  filters_sound nil d c n p q h = (none_left, (let same : c ≡ n = cc in omega arith))
  filters_sound (cons arg args) d c n p q h = elim (Result-cases (validate_filter arg d c)) [
    | inl (m, e) ↦
        let (is, first) = filter_sound arg d c m e in
        let (are, later) = filters_sound args d m n p (omega arith) (rw e at h) in
        (one_more arg args is are, omega arith)
    | inr (x, e) ↦ ground arith
  ]

depth-pos : (f : Filter) → 1 ≤ depth f
unfolding depth
depth-pos (Filter.and args) = omega arith
depth-pos _ = omega arith

depth_all-pos : (args : Filters) → 0 < size_all args → 0 < depth_all args
unfolding depth size
depth_all-pos nil h = omega arith
depth_all-pos (cons arg args) h = omega (arith, depth-pos arg)

abbrev Fits : ℕ → ℕ → ℕ → ℕ → Type 0
Fits depth size d c = (d + depth ≤ max_filter_depth + 1) × (c + size ≤ max_filter_nodes)

mutual
  unfolding validate_filter depth size

  filter_complete :
      {f : Filter}
      → IsFilter f
      → (d c : ℕ) → Fits (depth f) (size f) d c
      → validate_filter f d c ≡ ok (c + size f)
  filter_complete (and_ok args full are) d c (h, k) =
      logical_complete args d c full h k (filters_complete are (d + 1) (c + 1) (omega arith))
        (depth_all-pos args full)
  filter_complete (or_ok args full are) d c (h, k) =
      logical_complete args d c full h k (filters_complete are (d + 1) (c + 1) (omega arith))
        (depth_all-pos args full)
  filter_complete (not_ok arg is) d c (h, k) =
      let same : c + 1 + size arg ≡ c + suc (size arg) = omega arith in
      rw ((enter_filter_iff d c (c + 1)).1 (omega (arith, depth-pos arg)))
        (filter_complete is (d + 1) (c + 1) (omega arith) ∙ ap ok same)
  filter_complete (eq_ok f v p) d c (h, k) =
      leaf_complete (validate_comparison f v) (validate_comparison_iff f v) d c p h k
  filter_complete (not_eq_ok f v p) d c (h, k) =
      leaf_complete (validate_comparison f v) (validate_comparison_iff f v) d c p h k
  filter_complete (gt_ok f v p) d c (h, k) =
      leaf_complete (validate_comparison f v) (validate_comparison_iff f v) d c p h k
  filter_complete (gte_ok f v p) d c (h, k) =
      leaf_complete (validate_comparison f v) (validate_comparison_iff f v) d c p h k
  filter_complete (lt_ok f v p) d c (h, k) =
      leaf_complete (validate_comparison f v) (validate_comparison_iff f v) d c p h k
  filter_complete (lte_ok f v p) d c (h, k) =
      leaf_complete (validate_comparison f v) (validate_comparison_iff f v) d c p h k
  filter_complete (in_ok f vs p) d c (h, k) =
      leaf_complete (validate_in f vs) (validate_in_iff f vs) d c p h k
  filter_complete (null_ok f p) d c (h, k) =
      leaf_complete (validate_null_test f) (validate_null_test_iff f) d c p h k
  filter_complete (not_null_ok f p) d c (h, k) =
      leaf_complete (validate_null_test f) (validate_null_test_iff f) d c p h k

  filters_complete :
      {fs : Filters}
      → AreFilters fs
      → (d c : ℕ) → Fits (depth_all fs) (size_all fs) d c
      → validate_filters fs d c ≡ ok (c + size_all fs)
  filters_complete none_left d c h = ground arith
  filters_complete (one_more arg args is are) d c h =
      let same : c + size arg + size_all args ≡ c + (size arg + size_all args) = omega arith in
      rw (filter_complete is d c (omega arith))
        (filters_complete are d (c + size arg) (omega arith) ∙ ap ok same)

-- A query's filter is accepted exactly when every node is well formed, it has at most 16 levels,
-- and it has at most 128 nodes; the count that is then reached is the number of its nodes.
pub validate_filter_iff :
    (f : Filter) (n : ℕ)
    → (validate_filter f 1 0 ≡ ok n)
      ↔ (IsFilter f × (depth f ≤ max_filter_depth) × (size f ≤ max_filter_nodes) × (n ≡ size f))
validate_filter_iff f n = (
  λ h. let (is, counts) = filter_sound f 1 0 n h in (is, omega arith, omega arith, omega arith),
  λ (is, deep, large, same).
      filter_complete is 1 0 (omega arith) ∙ ap ok (let e : 0 + size f ≡ n = omega arith in e),
)
