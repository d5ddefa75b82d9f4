-- ===== src/Rti/Declaration/Tables.antt =====
-- What the steps of the declaration handlers do to the tables, entry by entry.
use hla4_rs.Prelude.{
  ℕ, ◌≡◌, refl, ◌∙◌, List, [], ◌∷◌, true, false, ◌&&◌, ◌==◌, ==_iff, if◌then◌else◌, arith,
  Option-cases, inl, inr,
}
use hla4_rs.Prelude.Eq.{nat_eq, pair_eq}
use hla4_rs.Prelude.Map.{Map, get, remove, get-insert, get-remove}
use hla4_rs.Prelude.Sets.{
  contains, set_insert, set_remove, set_extend, contains-set_insert, contains-set_remove,
}
use hla4_rs.Rti.Subscriptions.{
  SubscriptionMatrix, or_else, is_empty, subscribe_attribute, unsubscribe_attribute,
}
use hla4_rs.Rti.Subscriptions.Invariant.{subscribed, contains-subscribe}
use hla4_rs.Rti.Subscriptions.Removal.{contains-unsubscribe}
use hla4_rs.Rti.Declaration.{
  extend_entry, remove_all, remove_entry, subscribe_all, unsubscribe_all, add_interaction,
  drop_interaction,
}

contains-set_extend :
    (a : ℕ) (xs s : List ℕ)
    → contains a (set_extend xs s) ≡ (if contains a xs then true else contains a s)
unfolding contains set_extend
contains-set_extend a [] s = refl
contains-set_extend a (x ∷ xs) s =
    ground (arith, contains-set_extend a xs (set_insert x s), contains-set_insert x a s, ==_iff x a)

contains-remove_all :
    (a : ℕ) (xs s : List ℕ)
    → contains a (remove_all xs s) ≡ (if contains a xs then false else contains a s)
unfolding contains remove_all
contains-remove_all a [] s = refl
contains-remove_all a (x ∷ xs) s =
    ground (arith, contains-remove_all a xs (set_remove x s), contains-set_remove x a s, ==_iff x a)

-- The members of an entry.
abbrev pub entry : ℕ → Map ℕ (List ℕ) → List ℕ
entry c m = or_else [] (get c m)

pub contains-extend_entry :
    (class : ℕ) (set : List ℕ) (m : Map ℕ (List ℕ)) (c a : ℕ)
    → contains a (entry c (extend_entry class set m))
      ≡ (if class == c && contains a set then true else contains a (entry c m))
unfolding extend_entry
contains-extend_entry class set m c a = ground (
  arith,
  get-insert class c (set_extend set (entry class m)) m,
  contains-set_extend a set (entry class m),
  ==_iff class c,
)

empty_contains : (a : ℕ) (s : List ℕ) → is_empty s ≡ true → contains a s ≡ false
unfolding contains
empty_contains a [] h = refl
empty_contains a (x ∷ s) h = cc

pub contains-remove_entry :
    (class : ℕ) (set : List ℕ) (m : Map ℕ (List ℕ)) (c a : ℕ)
    → contains a (entry c (remove_entry class set m))
      ≡ (if class == c && contains a set then false else contains a (entry c m))
unfolding remove_entry contains
contains-remove_entry class set m c a = elim (Option-cases (get class m)) [
  | inl e ↦ ground (arith, e, ==_iff class c)
  | inr (existing, e) ↦
      let rest = remove_all set existing in
      ground (
        arith,
        e,
        get-insert class c rest m,
        get-remove class c m,
        contains-remove_all a set existing,
        empty_contains a rest,
        ==_iff class c,
      )
]

pub contains-remove :
    (class : ℕ) (m : Map ℕ (List ℕ)) (c a : ℕ)
    → contains a (entry c (remove class m)) ≡ (if class == c then false else contains a (entry c m))
unfolding contains
contains-remove class m c a = ground (arith, get-remove class c m)

pub subscribed-subscribe_all :
    (class fh : ℕ) (set : List ℕ) (subs : SubscriptionMatrix) (c a f : ℕ)
    → subscribed (subscribe_all class fh set subs) c a f
      ≡ (if class == c && (contains a set && fh == f) then true else subscribed subs c a f)
unfolding subscribe_all contains
subscribed-subscribe_all class fh [] subs c a f = ground arith
subscribed-subscribe_all class fh (attr ∷ set) subs c a f = ground (
  arith,
  subscribed-subscribe_all class fh set (subscribe_attribute subs class attr fh).0 c a f,
  contains-subscribe subs class attr fh c a f,
)

pub subscribed-unsubscribe_all :
    (class fh : ℕ) (set : List ℕ) (subs : SubscriptionMatrix) (c a f : ℕ)
    → subscribed (unsubscribe_all class fh set subs) c a f
      ≡ (if class == c && (contains a set && fh == f) then false else subscribed subs c a f)
unfolding unsubscribe_all contains
subscribed-unsubscribe_all class fh [] subs c a f = ground arith
subscribed-unsubscribe_all class fh (attr ∷ set) subs c a f = ground (
  arith,
  subscribed-unsubscribe_all class fh set (unsubscribe_attribute subs class attr fh).0 c a f,
  contains-unsubscribe subs class attr fh c a f,
)

pub by_interaction-subscribe_all :
    (class fh : ℕ) (set : List ℕ) (subs : SubscriptionMatrix)
    → (subscribe_all class fh set subs).by_interaction ≡ subs.by_interaction
unfolding subscribe_all subscribe_attribute
by_interaction-subscribe_all class fh [] subs = refl
by_interaction-subscribe_all class fh (attr ∷ set) subs =
    by_interaction-subscribe_all class fh set (subscribe_attribute subs class attr fh).0
    ∙ ground arith

pub by_interaction-unsubscribe_all :
    (class fh : ℕ) (set : List ℕ) (subs : SubscriptionMatrix)
    → (unsubscribe_all class fh set subs).by_interaction ≡ subs.by_interaction
unfolding unsubscribe_all unsubscribe_attribute
by_interaction-unsubscribe_all class fh [] subs = refl
by_interaction-unsubscribe_all class fh (attr ∷ set) subs =
    by_interaction-unsubscribe_all class fh set (unsubscribe_attribute subs class attr fh).0
    ∙ ground arith

pub contains-add_interaction :
    (class fh : ℕ) (subs : SubscriptionMatrix) (c f : ℕ)
    → contains f (entry c (add_interaction class fh subs).by_interaction)
      ≡ (if class == c && fh == f then true else contains f (entry c subs.by_interaction))
unfolding add_interaction
contains-add_interaction class fh subs c f =
    let old = entry class subs.by_interaction in
    ground (
      arith,
      get-insert class c (set_insert fh old) subs.by_interaction,
      contains-set_insert fh f old,
      ==_iff class c,
    )

pub contains-drop_interaction :
    (class fh : ℕ) (subs : SubscriptionMatrix) (c f : ℕ)
    → contains f (entry c (drop_interaction class fh subs).by_interaction)
      ≡ (if class == c && fh == f then false else contains f (entry c subs.by_interaction))
unfolding drop_interaction contains
contains-drop_interaction class fh subs c f = elim (Option-cases (get class subs.by_interaction)) [
  | inl e ↦ ground (arith, e, ==_iff class c)
  | inr (set, e) ↦
      let rest = set_remove fh set in
      ground (
        arith,
        e,
        get-insert class c rest subs.by_interaction,
        get-remove class c subs.by_interaction,
        contains-set_remove fh f set,
        empty_contains f rest,
        ==_iff class c,
      )
]

pub subscribed-add_interaction :
    (class fh : ℕ) (subs : SubscriptionMatrix) (c a f : ℕ)
    → subscribed (add_interaction class fh subs) c a f ≡ subscribed subs c a f
unfolding add_interaction
subscribed-add_interaction class fh subs c a f = refl

pub subscribed-drop_interaction :
    (class fh : ℕ) (subs : SubscriptionMatrix) (c a f : ℕ)
    → subscribed (drop_interaction class fh subs) c a f ≡ subscribed subs c a f
unfolding drop_interaction
subscribed-drop_interaction class fh subs c a f =
    elim (Option-cases (get class subs.by_interaction)) [
      | inl e ↦ rw (drop_interaction, e)
      | inr (set, e) ↦ rw (drop_interaction, e)
    ]
