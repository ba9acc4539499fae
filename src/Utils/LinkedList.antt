-- ===== src/Utils/LinkedList.antt =====
-- src/utils/list.rs: the singly linked list with `push` at the far end, and its cursor `Iter`.
-- `IterMut` walks the same way; what it changes is written by `map_iter`.
use rust_user_net.Base.{List, [], ◌∷◌, ◌++◌, Option, none, some, ◌≡◌, refl, ap}

-- `nil` is `None`, `node elem next` is `Some(Box<Node>)`.
pub data Link {ℓ} (A : Type ℓ) : Type ℓ where
  nil : Link A
  node : A → Link A → Link A

pub record LinkedList {ℓ} (A : Type ℓ) : Type ℓ where
  pub head : Link A

module _ {ℓ} {A : Type ℓ} where
  unfoldable pub new : LinkedList A
  new = record { head = nil }

  -- The loop of `push`, from a node that is there.
  push_link : Link A → A → Link A
  push_link nil elem = node elem nil
  push_link (node x nil) elem = node x (node elem nil)
  push_link (node x (node y next)) elem = node x (push_link (node y next) elem)

  unfoldable pub push : LinkedList A → A → LinkedList A
  unfolding push_link
  push l elem = record { head = push_link l.head elem }

  -- `Iter::next`: the element under the cursor, and the cursor after it.
  pub next : Link A → Option (A × Link A)
  next nil = none
  next (node elem rest) = some (elem, rest)

  -- What a `for` loop over the cursor sees.
  abbrev pub iter_link : Link A → List A
  iter_link nil = []
  iter_link (node elem rest) = elem ∷ iter_link rest

  abbrev pub iter : LinkedList A → List A
  iter l = iter_link l.head

  -- A `for` loop over `iter_mut`, whose body replaces each element.
  pub map_link : (A → A) → Link A → Link A
  map_link f nil = nil
  map_link f (node elem rest) = node (f elem) (map_link f rest)

  iter-push_link : (l : Link A) (elem : A) → iter_link (push_link l elem) ≡ iter_link l ++ elem ∷ []
  unfolding push_link
  iter-push_link nil elem = refl
  iter-push_link (node x nil) elem = refl
  iter-push_link (node x (node y next)) elem = ap (◌∷◌ x) (iter-push_link (node y next) elem)

  -- An element that is pushed comes last, behind all that were there, in the order in which they
  -- were pushed.
  iter-push : (l : LinkedList A) (elem : A) → iter (push l elem) ≡ iter l ++ elem ∷ []
  unfolding push
  iter-push l elem = iter-push_link l.head elem
