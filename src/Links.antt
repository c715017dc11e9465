-- ===== src/Links.antt =====
-- include/list.h: circular doubly linked lists. A node is its address, and the pointers of all nodes
-- are a pair of maps.
pub mod Ring
mod Tests
use snap_os.Prelude.{ℕ, Bool, ◌==◌, write}

-- `struct list_head` of every node.
pub record Links : Type 0 where
  pub next : ℕ → ℕ
  pub prev : ℕ → ℕ

-- `a->next = b`
abbrev set_next : ℕ → ℕ → Links → Links
set_next a b l = record l { next = write l.next a b }

-- `a->prev = b`
abbrev set_prev : ℕ → ℕ → Links → Links
set_prev a b l = record l { prev = write l.prev a b }

unfoldable pub init_list_head : ℕ → Links → Links
init_list_head list l = set_prev list list (set_next list list l)

unfoldable pub list_add : (new head : ℕ) → Links → Links
list_add new head l =
    let l₁ = set_prev new head l in
    let l₂ = set_next new (l₁.next head) l₁ in
    let l₃ = set_prev (l₂.next head) new l₂ in set_next head new l₃

unfoldable pub list_add_tail : (new head : ℕ) → Links → Links
list_add_tail new head l =
    let l₁ = set_next new head l in
    let l₂ = set_prev new (l₁.prev head) l₁ in
    let l₃ = set_next (l₂.prev head) new l₂ in set_prev head new l₃

unfoldable pub list_del : (entry : ℕ) → Links → Links
list_del entry l =
    let l₁ = set_next (l.prev entry) (l.next entry) l in set_prev (l₁.next entry) (l₁.prev entry) l₁

unfoldable pub list_empty : (head : ℕ) → Links → Bool
list_empty head l = l.next head == head
