-- ===== src/Project/Store/Create.antt =====
-- What Create returns and what it leaves in the table.
use appx.Base.{
  ℕ, ◌+◌, ◌≡◌, refl, inl, inr, false, none, some, Option-cases, List, [], ◌∷◌, ◌++◌, arith,
  Bool-cases,
}
use appx.Text.{Text}
use appx.Project.Name.{invalid_name, reserved_name_suffix, validate_name}
use appx.Project.Ports.{next_available_port_pair}
use appx.Project.Ports.Lowest.{next_available_port_pair-Search}
use appx.Project.Store.{
  Project, Row, StoreError, ok, err, Failures, begin_tx, read_back, scan_into, used_ports, find_id,
  find_name, violates_unique, get, new_row, create_tx, create,
}
use appx.Project.Store.Held.{IsLowest, pair-IsLowest}
use appx.Project.Store.Ports.{pair_free}
use appx.Project.Store.Rows.{find_id-append, violates_unique-find, violates_unique_free}

abbrev pub no_failures : Failures
no_failures c = false

-- What a successful Create has done.
pub record Created (id name : Text) (now : ℕ) (rows : List Row) (p : Project) (rows' : List Row)
    : Type 0 where
  pub prod : ℕ
  pub dev : ℕ
  pub valid : validate_name name ≡ none
  pub prod_lowest : IsLowest rows 10000 prod
  pub dev_lowest : IsLowest rows (prod + 1) dev
  pub new_id : find_id id rows ≡ none
  pub new_name : find_name name rows ≡ none
  pub added : rows' ≡ rows ++ new_row id name prod dev now ∷ []
  pub returned : p ≡ scan_into (new_row id name prod dev now)

create_tx-Created :
    (fails : Failures) (id name : Text) (now : ℕ) (rows : List Row) (p : Project)
    → validate_name name ≡ none
    → (create_tx fails id name now rows).0 ≡ ok p
    → Created id name now rows p (create_tx fails id name now rows).1
create_tx-Created fails id name now rows p v h =
    elim (Option-cases (next_available_port_pair (used_ports rows))) [
      | inl e ↦ unfold create_tx in ground (arith, e)
      | inr ((prod, dev), e) ↦
          elim (Bool-cases (violates_unique (new_row id name prod dev now) rows)) [
            | inl clash ↦ unfold create_tx in ground (arith, e, clash)
            | inr fine ↦
                (let fresh = violates_unique-find id name prod dev now rows fine in
                  let lowest =
                    pair-IsLowest rows prod dev _
                      (next_available_port_pair-Search (used_ports rows)) e in
                  record {
                    prod = prod;
                    dev = dev;
                    valid = v;
                    prod_lowest = lowest.0;
                    dev_lowest = lowest.1;
                    new_id = fresh.0;
                    new_name = fresh.1;
                    added = unfold create_tx in ground (arith, e, fine);
                    returned =
                        unfold create_tx get in
                        ground (
                          arith,
                          e,
                          fine,
                          find_id-append id rows (new_row id name prod dev now) fresh.0
                              (unfold new_row in refl),
                        );
                  })
          ]
    ]

-- When Create returns a project, its name is valid and was new, its row is the only change of the
-- table, and its ports are the two lowest from 10000 to 10199 that no row holds in either column, PROD
-- the lower one.
pub create-Created :
    (fails : Failures) (id name : Text) (now : ℕ) (rows : List Row) (p : Project)
    → (create fails id name now rows).0 ≡ ok p
    → Created id name now rows p (create fails id name now rows).1
create-Created fails id name now rows p h = elim (Option-cases (validate_name name)) [
  | inr (e, bad) ↦ unfold create in ground (arith, bad)
  | inl good ↦ elim (Bool-cases (fails begin_tx)) [
    | inl down ↦ unfold create in ground (arith, good, down)
    | inr up ↦
        unfold create in
        rw (good, create)
          (rw up (
            create_tx-Created fails id name now rows p good
              (unfold create in ground (arith, good, up))))
  ]
]

create_tx_fails :
    (fails : Failures) (id name : Text) (now : ℕ) (rows : List Row) (e : StoreError)
    → fails read_back ≡ false
    → (create_tx fails id name now rows).0 ≡ err e
    → (create_tx fails id name now rows).1 ≡ rows
create_tx_fails fails id name now rows e up h =
    elim (Option-cases (next_available_port_pair (used_ports rows))) [
      | inl none_left ↦ unfold create_tx in ground (arith, none_left)
      | inr ((prod, dev), pair) ↦
          elim (Bool-cases (violates_unique (new_row id name prod dev now) rows)) [
            | inl clash ↦ unfold create_tx in ground (arith, pair, clash)
            | inr fine ↦
                (let fresh = violates_unique-find id name prod dev now rows fine in
                  unfold create_tx get in
                  ground (
                    arith,
                    pair,
                    fine,
                    find_id-append id rows (new_row id name prod dev now) fresh.0
                        (unfold new_row in refl),
                  ))
          ]
    ]

-- When Create returns an error the table is as it was, provided the read after the commit works.
pub create_fails :
    (fails : Failures) (id name : Text) (now : ℕ) (rows : List Row) (e : StoreError)
    → fails read_back ≡ false
    → (create fails id name now rows).0 ≡ err e
    → (create fails id name now rows).1 ≡ rows
create_fails fails id name now rows e up h = elim (Option-cases (validate_name name)) [
  | inr (invalid_name, bad) ↦ unfold create in ground (arith, bad)
  | inr (reserved_name_suffix, bad) ↦ unfold create in ground (arith, bad)
  | inl good ↦ elim (Bool-cases (fails begin_tx)) [
    | inl down ↦ unfold create in ground (arith, good, down)
    | inr works ↦
        unfold create in ground (arith, good, works, create_tx_fails fails id name now rows e up)
  ]
]

-- With a working database, a valid new name and two free ports, Create succeeds.
pub create_succeeds :
    (id name : Text) (now prod dev : ℕ) (rows : List Row)
    → validate_name name ≡ none
    → find_id id rows ≡ none
    → find_name name rows ≡ none
    → next_available_port_pair (used_ports rows) ≡ some (prod, dev)
    → create no_failures id name now rows
      ≡ (ok (scan_into (new_row id name prod dev now)), rows ++ new_row id name prod dev now ∷ [])
create_succeeds id name now prod dev rows v i n e =
    (let free = pair_free rows prod dev e in
      let fine = violates_unique_free id name prod dev now rows i n free.3 free.4 in
      unfold create create_tx get in
      ground (
        arith,
        v,
        e,
        fine,
        find_id-append id rows (new_row id name prod dev now) i (unfold new_row in refl),
      ))
