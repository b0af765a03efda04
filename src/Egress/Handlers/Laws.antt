-- ===== src/Egress/Handlers/Laws.antt =====
-- What a list that the dashboard accepts can and cannot admit.
use appx.Base.{
  suc, ◌≡◌, ◌≢◌, ◌≤◌, refl, sym, ap, ◌∙◌, inl, inr, Bool, true, false, Option, none, some, List, [],
  ◌∷◌, arith, Bool-cases, and-eq_true,
}
use appx.Text.{Text, text_eq, has_byte}
use appx.Text.Equality.{text_eq→eq, text_eq_iff}
use appx.Text.Decimal.{itoa-Free}
use appx.Text.HostPort.{split_host_port_plain, IsPlain}
use appx.Text.Int.{ℤ, pos, negsuc, print_int}
use appx.Egress.Store.{Store, key, port_suffix, member, load, get_allowlist, set_allowlist}
use appx.Egress.Proxy.{Address}
use appx.Egress.Handlers.{
  ok_status, log_limit, host_ok, entry_ok, entries_ok, handle_set_allowlist, handle_get_allowlist,
}

-- The page size is always between 1 and 200, whatever the query says.
pub log_limit_bounds : (v : Text) → (1 ≤ log_limit v) × (log_limit v ≤ 200)
unfolding log_limit
log_limit_bounds v = ground arith

print_int-IsPlain : (a : ℤ) → IsPlain (print_int a)
unfolding print_int has_byte
print_int-IsPlain (pos n) = record {
  no_colon = itoa-Free b':' n (inr (omega arith));
  no_open = itoa-Free b'[' n (inr (omega arith));
  no_close = itoa-Free b']' n (inr (omega arith));
}
print_int-IsPlain (negsuc n) = record {
  no_colon = itoa-Free b':' (suc n) (inr (omega arith));
  no_open = itoa-Free b'[' (suc n) (inr (omega arith));
  no_close = itoa-Free b']' (suc n) (inr (omega arith));
}

module _ (parse_ip : Text → Option Address) where
  member-entry_ok :
      (e : Text) (es : List Text)
      → entries_ok parse_ip es ≡ true
      → member e es ≡ true
      → entry_ok parse_ip e ≡ true
  unfolding entries_ok member
  member-entry_ok e [] h m = cc
  member-entry_ok e (x ∷ es) h m = elim (Bool-cases (text_eq x e)) [
    | inl same ↦ rw (← text_eq→eq x e same) (and-eq_true _ _ h).0
    | inr other ↦ member-entry_ok e es (and-eq_true _ _ h).1 (ground arith)
  ]

  member_same : (x e : Text) (es : List Text) → text_eq x e ≡ true → member x es ≡ member e es
  member_same x e es h = ap (λ y. member y es) (text_eq→eq x e h)

  member-load : (e : Text) (es : List Text) → member e (load es) ≡ member e es
  unfolding member load
  member-load e [] = refl
  member-load e (x ∷ es) = ground (arith, member-load e es, text_eq_iff x e, member_same x e es)

  accepted :
      (db_ok : Bool) (es : List Text) (s : Store)
      → (handle_set_allowlist parse_ip db_ok (some es) s).0 ≡ ok_status
      → (entries_ok parse_ip es ≡ true)
        × ((handle_set_allowlist parse_ip db_ok (some es) s).1.allowlist ≡ load es)
  unfolding handle_set_allowlist set_allowlist
  accepted db_ok [] s h = cc
  accepted db_ok (e ∷ es) s h = ground arith

  bad_entry :
      (host : Text) (port : ℤ)
      → IsPlain host
      → host_ok parse_ip host ≡ false
      → entry_ok parse_ip (key host port) ≡ false
  unfolding entry_ok key port_suffix
  bad_entry host port plain bad =
      ground
        (arith, split_host_port_plain host (print_int port) plain (print_int-IsPlain port), bad)

  -- When the dashboard's list is accepted, no host that the handler rejects is on the allowlist by
  -- itself, under any port.
  pub handle_set_allowlist_rejects :
      (db_ok : Bool) (es : List Text) (s : Store) (host : Text) (port : ℤ)
      → (handle_set_allowlist parse_ip db_ok (some es) s).0 ≡ ok_status
      → IsPlain host
      → host_ok parse_ip host ≡ false
      → member (key host port) (handle_set_allowlist parse_ip db_ok (some es) s).1.allowlist ≡ false
  handle_set_allowlist_rejects db_ok es s host port h plain bad =
      elim (Bool-cases (member (key host port) (load es))) [
        | inr out ↦ rw (accepted db_ok es s h).1 out
        | inl held ↦ cc (
          member-entry_ok (key host port) es (accepted db_ok es s h).0
              (sym (member-load (key host port) es) ∙ held),
          bad_entry host port plain bad,
        )
      ]

  -- Unless the reply is a success the store is as it was.
  pub handle_set_allowlist_fails :
      (db_ok : Bool) (body : Option (List Text)) (s : Store)
      → (handle_set_allowlist parse_ip db_ok body s).0 ≢ ok_status
      → (handle_set_allowlist parse_ip db_ok body s).1 ≡ s
  unfolding handle_set_allowlist set_allowlist
  handle_set_allowlist_fails db_ok none s h = refl
  handle_set_allowlist_fails db_ok (some []) s h = refl
  handle_set_allowlist_fails db_ok (some (e ∷ es)) s h = ground arith

  -- After a list has been accepted, the dashboard reads back exactly its entries.
  pub handle_get_allowlist-handle_set_allowlist :
      (db_ok : Bool) (es : List Text) (s : Store) (e : Text)
      → (handle_set_allowlist parse_ip db_ok (some es) s).0 ≡ ok_status
      → member e (handle_get_allowlist (handle_set_allowlist parse_ip db_ok (some es) s).1).1
        ≡ member e es
  unfolding handle_get_allowlist get_allowlist
  handle_get_allowlist-handle_set_allowlist db_ok es s e h =
      rw ((accepted db_ok es s h).1) (member-load e es)
