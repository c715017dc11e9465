-- ===== src/Links/Ring.antt =====
-- What the operations of include/list.h do to the ring that a list is.
use snap_os.Prelude.{ℕ, ◌+◌, ◌-◌, ◌≤◌, ◌<◌, ◌≡◌, ◌≢◌, arith, ltb, ◌==◌, if◌then◌else◌, dec_lt}
use snap_os.Links.{Links, init_list_head, list_add, list_add_tail, list_del, list_empty}

-- The list with head `node 0` holds the nodes `node 1` to `node n`, which are all different.
pub record IsRing (l : Links) (node : ℕ → ℕ) (n : ℕ) : Type 0 where
  pub apart : (i j : ℕ) → i < j → j ≤ n → node i ≢ node j
  pub next : (i : ℕ) → i < n → l.next (node i) ≡ node (i + 1)
  pub last : l.next (node n) ≡ node 0
  pub prev : (i : ℕ) → i < n → l.prev (node (i + 1)) ≡ node i
  pub first : l.prev (node 0) ≡ node n

-- The node stands nowhere in the list.
abbrev pub IsNew : (ℕ → ℕ) → ℕ → ℕ → Type 0
IsNew node n new = (i : ℕ) → i ≤ n → node i ≢ new

-- A sequence with `a` put behind its first `n + 1` nodes, and one with node `k` taken out.
abbrev pub with_last : (ℕ → ℕ) → ℕ → ℕ → ℕ → ℕ
with_last node n a i = if i == n + 1 then a else node i

abbrev pub with_first : (ℕ → ℕ) → ℕ → ℕ → ℕ
with_first node a i = if i == 0 then node 0 else if i == 1 then a else node (i - 1)

abbrev pub without : (ℕ → ℕ) → ℕ → ℕ → ℕ
without node k i = if ltb i k then node i else node (i + 1)

pub init_list_head-IsRing : (list : ℕ) (l : Links) → IsRing (init_list_head list l) (λ i. list) 0
unfolding init_list_head
init_list_head-IsRing list l = record {
  apart = λ i j lt le. absurd (omega arith);
  next = λ i lt. absurd (omega arith);
  last = ground arith;
  prev = λ i lt. absurd (omega arith);
  first = ground arith;
}

pub list_empty-IsRing :
    {l : Links} {node : ℕ → ℕ} {n : ℕ} → IsRing l node n → list_empty (node 0) l ≡ (n == 0)
unfolding list_empty
list_empty-IsRing {l} {node} {n} r = elim (dec_lt 0 n) [
  | yes some_node ↦ ground (arith, r.next 0 some_node, r.apart 0 1)
  | no none_left ↦
      let e : n ≡ 0 = omega arith in
      let to_self : l.next (node 0) ≡ node 0 = rw e at r.last in ground (arith, e, to_self)
]

-- list_add_tail puts a node that is not in the list at its end: the ring then has one node more, all
-- pointers in both directions fit, and the other nodes keep their order.
pub list_add_tail-IsRing :
    {l : Links} {node : ℕ → ℕ} {n : ℕ} (new : ℕ)
    → IsRing l node n
    → IsNew node n new
    → IsRing (list_add_tail new (node 0) l) (with_last node n new) (n + 1)
unfolding list_add_tail
list_add_tail-IsRing {l} {node} {n} new r fresh = record {
  apart = λ i j lt le. ground (arith, r.apart i j, fresh i, fresh j);
  next = λ i lt. ground (arith, r.next i, r.first, fresh i, fresh 0, fresh n, r.apart i n);
  last = ground (arith, r.first, fresh 0, fresh n);
  prev = λ i lt. ground (arith, r.prev i, r.first, fresh (i + 1), fresh 0, r.apart 0 (i + 1));
  first = ground (arith, fresh 0);
}

-- list_del takes the node at place `k` out of the ring, and keeps the others in their order.
pub list_del-IsRing :
    {l : Links} {node : ℕ → ℕ} {n : ℕ} (k : ℕ)
    → IsRing l node n
    → 0 < k
    → k ≤ n
    → IsRing (list_del (node k) l) (without node k) (n - 1)
unfolding list_del
list_del-IsRing {l} {node} {n} k r low high =
    let e : k - 1 + 1 ≡ k = omega arith in
    let before : l.prev (node k) ≡ node (k - 1) = rw e at (r.prev (k - 1) (omega arith)) in
    let other : node k ≢ node (k - 1) = λ same. r.apart (k - 1) k (omega arith) high (cc) in
    elim (dec_lt k n) [
      | yes inside ↦ record {
        apart =
            λ i j lt le. ground (arith, r.apart i j, r.apart i (j + 1), r.apart (i + 1) (j + 1));
        next = λ i lt. ground (
          arith,
          before,
          r.next k inside,
          r.next i,
          r.next (i + 1),
          r.apart i (k - 1),
          r.apart (k - 1) i,
          r.apart (k - 1) (i + 1),
          e,
        );
        last = ground (arith, before, r.last, r.apart (k - 1) n, e);
        prev = λ i lt. ground (
          arith,
          before,
          other,
          r.next k inside,
          r.prev i,
          r.prev (i + 1),
          r.apart i (k + 1),
          r.apart (i + 1) (k + 1),
          r.apart (k + 1) (i + 1),
          r.apart (k + 1) (i + 1 + 1),
          e,
        );
        first = ground (arith, before, other, r.next k inside, r.first, r.apart 0 (k + 1));
      }
      | no at_end ↦
          let after : l.next (node k) ≡ node 0 = ground (arith, r.last) in
          record {
            apart = λ i j lt le. ground (arith, r.apart i j);
            next = λ i lt. ground (arith, before, r.next i, r.apart i (k - 1));
            last = ground (arith, before, after);
            prev = λ i lt. ground (arith, before, other, after, r.prev i, r.apart 0 (i + 1));
            first = ground (arith, before, other, after);
          }
    ]

-- list_add puts a node that is not in the list at its front, and keeps the ring of the others.
pub list_add-IsRing :
    {l : Links} {node : ℕ → ℕ} {n : ℕ} (new : ℕ)
    → IsRing l node n
    → IsNew node n new
    → IsRing (list_add new (node 0) l) (with_first node new) (n + 1)
unfolding list_add
list_add-IsRing {l} {node} {n} new r fresh = record {
  apart = λ i j lt le. ground (
    arith,
    r.apart i j,
    r.apart (i - 1) (j - 1),
    r.apart i (j - 1),
    fresh i,
    fresh (j - 1),
    fresh (i - 1),
  );
  next = λ i lt. elim (dec_lt 0 i) [
    | yes behind ↦
        let e : i - 1 + 1 ≡ i = omega arith in
        ground (arith, r.last, r.next (i - 1), r.apart 0 (i - 1), fresh 0, fresh (i - 1), e)
    | no at_head ↦ ground (arith, at_head)
  ];
  last = elim (dec_lt 0 n) [
    | yes filled ↦ ground (arith, r.last, r.apart 0 n, fresh 0, fresh n)
    | no empty ↦
        let e : n ≡ 0 = omega arith in
        let h : l.next (node 0) ≡ node 0 = rw e at r.last in ground (arith, e, h, fresh 0)
  ];
  prev = λ i lt. elim (dec_lt 0 n) [
    | yes filled ↦ elim (dec_lt 0 i) [
      | yes behind ↦
          let e : i - 1 + 1 ≡ i = omega arith in
          ground (
            arith,
            r.next 0,
            r.prev (i - 1),
            r.apart 1 i,
            r.apart 0 1,
            fresh i,
            fresh 0,
            fresh 1,
            e,
          )
      | no at_head ↦ ground (arith, r.next 0, r.apart 0 1, fresh 0, fresh 1)
    ]
    | no empty ↦
        let e : n ≡ 0 = omega arith in
        let h : l.next (node 0) ≡ node 0 = rw e at r.last in ground (arith, h, fresh 0)
  ];
  first = elim (dec_lt 0 n) [
    | yes filled ↦ ground (arith, r.next 0, r.first, r.apart 0 1, fresh 0, fresh 1)
    | no empty ↦
        let e : n ≡ 0 = omega arith in
        let h : l.next (node 0) ≡ node 0 = rw e at r.last in ground (arith, e, h, fresh 0)
  ];
}

-- A list is the same ring under every numbering that agrees on its nodes.
pub IsRing-same :
    {l : Links} {node node' : ℕ → ℕ} {n : ℕ}
    → ((i : ℕ) → i ≤ n → node i ≡ node' i)
    → IsRing l node n
    → IsRing l node' n
IsRing-same {l} {node} {node'} {n} e r = record {
  apart = λ i j lt le. ground (arith, e i, e j, r.apart i j);
  next = λ i lt. ground (arith, e i, e (i + 1), r.next i);
  last = ground (arith, e 0, e n, r.last);
  prev = λ i lt. ground (arith, e i, e (i + 1), r.prev i);
  first = ground (arith, e 0, e n, r.first);
}
