-- ===== src/Vchan/Lists.antt =====
-- Virtual channels as four lists of descriptors, oldest first: an implementation of the interface.
use akida_dw_edma.Base.{All-get_elem?, List, [], ◌∷◌, ◌++◌, get_elem?, is_empty, not, refl}
use akida_dw_edma.Vchan.{VchanOps, first, rest, put_first}

pub record Lists (D : Type 0) : Type 0 where
  pub issued : List D
  pub submitted : List D
  pub allocated : List D
  pub completed : List D

-- A cookie is a place in the list of issued descriptors.
abbrev pub lists : (D : Type 0) → VchanOps D
lists D = record {
  Vc = Lists D;
  issued = λ v. v.issued;
  submitted = λ v. v.submitted;
  allocated = λ v. v.allocated;
  completed = λ v. v.completed;
  init = λ v. record { issued = []; submitted = []; allocated = []; completed = [] };
  next_desc = λ v. first v.issued;
  find_desc = λ cookie v. get_elem? v.issued cookie;
  tx_prep = λ d v. record v { allocated = v.allocated ++ d ∷ [] };
  submit = λ d v. record v { submitted = v.submitted ++ d ∷ [] };
  issue_pending = λ v. (
    record v { issued = v.issued ++ v.submitted; submitted = [] },
    not (is_empty (v.issued ++ v.submitted)),
  );
  write_first = λ d v. record v { issued = put_first d v.issued };
  complete = λ d v. record v { issued = rest v.issued; completed = v.completed ++ d ∷ [] };
  next_desc_lem = λ v. refl;
  allocated-tx_prep = λ d v. refl;
  issued-issue_pending = λ v. refl;
  submitted-issue_pending = λ v. refl;
  issue_pending_lem = λ v. refl;
  issued-write_first = λ d v. refl;
  completed-write_first = λ d v. refl;
  issued-complete = λ d v. refl;
  completed-complete = λ d v. refl;
  submitted-write_first = λ d v. refl;
  submitted-complete = λ d v. refl;
  completed-issue_pending = λ v. refl;
  issued-submit = λ d v. refl;
  submitted-submit = λ d v. refl;
  completed-submit = λ d v. refl;
  find_desc_lem = λ P cookie v d h e. All-get_elem? P v.issued cookie d h e;
}
