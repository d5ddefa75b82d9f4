-- ===== src/Rti/Save/Examples.antt =====
-- Two federates save.
use hla4_rs.Prelude.{
  ℕ, zero, suc, ◌≡◌, refl, List, [], ◌∷◌, Bool, true, false, none, some, arith, inl, inr,
}
use hla4_rs.Prelude.Eq.{nat_eq}
use hla4_rs.Prelude.Map.{get}
use hla4_rs.Rti.State.{Federation, initiated, begun_save, SessionContext}
use hla4_rs.Rti.Samples.{node, two_federates, session_of}
use hla4_rs.Rti.Save.{all_done, request_federation_save, federate_save_begun}
use hla4_rs.Rti.Save.Opening.{save_opens}
use hla4_rs.Rti.Save.Progress.{SaveIsOpen, unreported, Progresses, progresses, save_ends}

abbrev saving : Federation ℕ
saving = record two_federates {
  current_save = some (record { label = "s"; statuses = (1, begun_save) ∷ (2, initiated) ∷ [] });
}

saving-IsOpen : SaveIsOpen saving.current_save
unfolding get all_done
saving-IsOpen = record { distinct = (refl, (refl, tt)); lacks = refl }

abbrev both : List (SessionContext × Bool)
both = (session_of 2, false) ∷ (session_of 1, true) ∷ []

both_progress : (f : ℕ) → unreported f saving.current_save ≡ true → Progresses f both
unfolding get
both_progress zero h = absurd (ground arith)
both_progress (suc zero) h = inr (inl refl)
both_progress (suc (suc zero)) h = inl refl
both_progress (suc (suc (suc f))) h = absurd (ground arith)

save_ends_example : (progresses node both saving).current_save ≡ none
save_ends_example = save_ends node both saving saving-IsOpen both_progress

save_opens_example :
    SaveIsOpen
      (request_federation_save node (session_of 1) two_federates "s").federation.current_save
    × SaveIsOpen (federate_save_begun (session_of 1) two_federates).federation.current_save
unfolding get
save_opens_example =
    save_opens node (session_of 1) two_federates "s" (omega arith) (refl, (refl, tt)) tt
