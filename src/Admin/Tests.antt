-- ===== src/Admin/Tests.antt =====
-- The session store on concrete inputs (internal/admin).
use freesbc.Base.{ℕ, String, ◌≡◌, refl, ite, false, [], ◌∷◌, arith, text_discrete}
use freesbc.Base.Assoc.{find}
use freesbc.Admin.Sessions.{create, valid}
use freesbc.Admin.Sessions.Lifetime.{Call, run, valid-max_age}

-- A digest that tells these two identifiers apart.
abbrev digest : String → ℕ
digest id = ite (text_discrete id "mine") 1 2

valid-max_age_example :
    (valid digest "mine" 50000000000000 (
      run digest
        (Call.use_session "mine" 900 ∷ Call.log_in "yours" 1000 ∷ Call.log_out "yours" 1100 ∷ [])
        (create digest "mine" 5 []))).1
    ≡ false
unfolding find
valid-max_age_example =
    valid-max_age digest "mine" 5 50000000000000
      (Call.use_session "mine" 900 ∷ Call.log_in "yours" 1000 ∷ Call.log_out "yours" 1100 ∷ []) []
      refl (tt, ((λ e. ground (arith, e)), (tt, tt))) (omega arith)
