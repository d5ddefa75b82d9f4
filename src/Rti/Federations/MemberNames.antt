-- ===== src/Rti/Federations/MemberNames.antt =====
-- crates/hla-rti/src/dispatch/federation_mgmt.rs: the names of the members of a federation differ.
use Prim.Native.String.{String}
use mathlib.Core.Option.{some-injective, none-ne-some}
use mathlib.Core.Path.{subst}
use mathlib.Core.Bool.{false≢true}
use hla4_rs.Prelude.{
  ℕ, ◌≡◌, sym, ap, ◌∙◌, [], ◌∷◌, true, false, ◌||◌, none, some, ◌==◌, if◌then◌else◌, arith,
  Option-cases, Bool-cases, inl, inr,
}
use hla4_rs.Prelude.Eq.{nat_eq, string_eq}
use hla4_rs.Prelude.Map.{Map, get, insert, remove, get-insert_cases, get-remove, get-modify_cases}
use hla4_rs.Rti.State.{Federation, FederateSession}
use hla4_rs.Rti.Federations.{
  Registry, Session, federate_name_in_use, join, resign, new_federate, claimed,
}

-- Two members with one name have one handle.
abbrev pub NamesDistinct : {T : Type 0} → Map ℕ (FederateSession T) → Type 0
NamesDistinct {T} federates =
    (i j : ℕ) (fs gs : FederateSession T)
    → get i federates ≡ some fs
    → get j federates ≡ some gs
    → fs.name ≡ gs.name
    → i ≡ j

abbrev pub MembersDistinct : {T : Type 0} → Registry T → Type 0
MembersDistinct {T} node =
    (g : String) (f : Federation T) → get g node.federations ≡ some f → NamesDistinct f.federates

module _ {T : Type 0} where
  federate_name_in_use-get :
      (name : String) (federates : Map ℕ (FederateSession T)) (i : ℕ) (fs : FederateSession T)
      → federate_name_in_use name federates ≡ false
      → get i federates ≡ some fs
      → ¬ (fs.name ≡ name)
  unfolding federate_name_in_use get
  federate_name_in_use-get name [] i fs u h p = none-ne-some fs h
  federate_name_in_use-get name ((j, gs) ∷ federates) i fs u h p = elim (Bool-cases (j == i)) [
    | inl y ↦
        let here : gs ≡ fs =
          some-injective gs fs (sym (ap (λ b. if b then some gs else get i federates) y) ∙ h) in
        let named : string_eq.beq gs.name name ≡ true =
          (string_eq.beq_iff gs.name name).1 (ap (λ x. x.name) here ∙ p) in
        false≢true (sym u ∙ ap (λ b. b || federate_name_in_use name federates) named)
    | inr y ↦
        federate_name_in_use-get name federates i fs (ground arith)
          (sym (ap (λ b. if b then some gs else get i federates) y) ∙ h) p
  ]

  insert-NamesDistinct :
      (k : ℕ) (fs : FederateSession T) (federates : Map ℕ (FederateSession T))
      → federate_name_in_use fs.name federates ≡ false
      → NamesDistinct federates
      → NamesDistinct (insert k fs federates)
  insert-NamesDistinct k fs federates u d i j f g hi hj p =
      elim (get-insert_cases k i fs f federates hi) [
        | inl (ki, ff) ↦ elim (get-insert_cases k j fs g federates hj) [
          | inl (kj, gg) ↦ sym ki ∙ kj
          | inr old ↦ absurd (
              federate_name_in_use-get fs.name federates j g u old
                (sym p ∙ ap (λ x. x.name) (sym ff)))
        ]
        | inr old ↦ elim (get-insert_cases k j fs g federates hj) [
          | inl (kj, gg) ↦
              absurd (
                federate_name_in_use-get fs.name federates i f u old
                  (p ∙ ap (λ x. x.name) (sym gg)))
          | inr old' ↦ d i j f g old old' p
        ]
      ]

  remove_finds :
      (k i : ℕ) (fs : FederateSession T) (federates : Map ℕ (FederateSession T))
      → get i (remove k federates) ≡ some fs
      → get i federates ≡ some fs
  remove_finds k i fs federates h = elim (Bool-cases (k == i)) [
    | inl y ↦ absurd (
        none-ne-some fs
          (sym (get-remove k i federates ∙ ap (λ b. if b then none else get i federates) y) ∙ h))
    | inr y ↦ sym (get-remove k i federates ∙ ap (λ b. if b then none else get i federates) y) ∙ h
  ]

  -- A write of one federation keeps the names when it does so there.
  insert-MembersDistinct :
      (g : String) (f : Federation T) (node : Registry T)
      → NamesDistinct f.federates
      → MembersDistinct node
      → MembersDistinct (record node { federations = insert g f node.federations })
  insert-MembersDistinct g f node d all k h e = elim (get-insert_cases g k f h node.federations e) [
    | inl (p, q) ↦ subst (λ x. NamesDistinct x.federates) q d
    | inr old ↦ all k h old
  ]

  join_named-MembersDistinct :
      (federate_name : ℕ → String) (zero : T) (node : Registry T) (ctx : Session)
      (name federation_name : String)
      → MembersDistinct node
      → MembersDistinct (join federate_name zero node ctx (some name) federation_name).node
  unfolding join
  join_named-MembersDistinct federate_name zero node ctx name federation_name all =
      elim (Option-cases ctx.joined) [
        | inr (j, e) ↦ rw (join, e) all
        | inl e ↦ elim (Option-cases (get federation_name node.federations)) [
          | inl g ↦ rw (join, e, g) all
          | inr (federation, g) ↦
              elim (Bool-cases (federate_name_in_use name federation.federates)) [
                | inl u ↦
                    rw (join, e, g, u)
                      (insert-MembersDistinct federation_name (claimed federation) node
                        (all federation_name federation g) all)
                | inr u ↦
                    rw (join, e, g, u)
                      (insert-MembersDistinct federation_name
                        (record (claimed federation) {
                          federates =
                              insert federation.next_federate_id
                                (new_federate zero federation.next_federate_id name ctx.session_id)
                                federation.federates;
                        })
                        node
                        (insert-NamesDistinct federation.next_federate_id
                          (new_federate zero federation.next_federate_id name ctx.session_id)
                          federation.federates u (all federation_name federation g))
                        all)
              ]
        ]
      ]

  resign-MembersDistinct :
      (node : Registry T) (ctx : Session)
      → MembersDistinct node
      → MembersDistinct (resign node ctx).0
  unfolding resign
  resign-MembersDistinct node ctx all = elim (Option-cases ctx.joined) [
    | inl e ↦ rw (resign, e) all
    | inr (j, e) ↦
        rw (resign, e)
          (λ g f h.
            elim (get-modify_cases j.federation g
              (λ x. record x { federates = remove j.membership.federate_handle x.federates }) f
              node.federations h) [
                | inl old ↦ all g f old
                | inr (v, (old, made)) ↦
                    subst (λ x. NamesDistinct x.federates) made
                      (λ i k fs gs hi hk p.
                        all g v old i k fs gs
                          (remove_finds j.membership.federate_handle i fs v.federates hi)
                          (remove_finds j.membership.federate_handle k gs v.federates hk) p)
              ])
  ]

-- The calls that change the members of a federation, with the name that a federate asks for.
pub data MemberCall : Type 0 where
  join_named : String → String → MemberCall
  leave : MemberCall

module _ {T : Type 0} (federate_name : ℕ → String) (zero : T) (node : Registry T)
    (ctx : Session) where
  abbrev pub after_call : MemberCall → Registry T
  after_call (join_named name federation_name) =
      (join federate_name zero node ctx (some name) federation_name).node
  after_call leave = (resign node ctx).0

  -- When the members of each federation have different names, they still have after any federate
  -- joins by a name of its own or resigns, whether the call succeeds or not.
  pub member_names_distinct :
      (call : MemberCall) → MembersDistinct node → MembersDistinct (after_call call)
  member_names_distinct (join_named name federation_name) all =
      join_named-MembersDistinct federate_name zero node ctx name federation_name all
  member_names_distinct leave all = resign-MembersDistinct node ctx all
