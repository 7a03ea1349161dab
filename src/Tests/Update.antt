-- ===== src/Tests/Update.antt =====
-- update_fdt over a libfdt that counts the reservations at address 0 and keeps the properties of
-- /chosen at the odd addresses.
use mathlib.Core.Path.{fun_ext}
use dragon_stub.Base.{
  suc, ◌^◌, ℕ, ◌+◌, ◌-◌, ◌*◌, ◌/◌, ◌%◌, ◌≡◌, refl, ap, ◌∙◌, arith, some, List, [], ◌∷◌, ◌==◌,
  if◌then◌else◌, Bool-cases, inl, inr,
}
use dragon_stub.Machine.{Machine, Memory, efi_success}
use dragon_stub.Fdt.{
  Libfdt, Property, set_all, delete_reservations, fill_chosen, update_fdt, usable_fdt, create_fdt,
}
use dragon_stub.Text.Str.{strlen}
use dragon_stub.Fdt.Values.{Values, with_value, property_number, KeepsTree}
use dragon_stub.Fdt.Update.{update_fdt-chosen, RuntimeValues, BootArgs, NoneReserved}
use dragon_stub.Tests.Tree.{slot, slot-small, store, value, value-store, value-store_other}
use dragon_stub.Tests.Platform.{start_with}

abbrev props : Memory → Memory
props f x = f (2 * x + 1)

abbrev set_props : Memory → (slot : ℕ) → List ℕ → Memory
set_props f c v a = if a % 2 == 1 then store (props f) c v (a / 2) else f a

props-set_props : (f : Memory) (c : ℕ) (v : List ℕ) → props (set_props f c v) ≡ store (props f) c v
props-set_props f c v = fun_ext (λ x.
    let odd : (2 * x + 1) % 2 ≡ 1 = omega arith in
    let half : (2 * x + 1) / 2 ≡ x = omega arith in rw (odd, half) refl)

abbrev delete : Memory → Memory
delete f a = if a == 0 then f 0 - 1 else f a

props-delete : (f : Memory) → props (delete f) ≡ props f
props-delete f = fun_ext (λ x. ground arith)

abbrev counting_tree : Libfdt
counting_tree = record {
  check_header = λ f fdt. 0;
  totalsize = λ f fdt. 0;
  open_into = λ f fdt buf bufsize. (0, f);
  create_empty_tree = λ f buf bufsize. (0, f);
  num_mem_rsv = λ f fdt. f 0;
  del_mem_rsv = λ f fdt n. if f 0 == suc n then (0, delete f) else (2 ^ 32 - 1, f);
  root_offset = λ f fdt. 0;
  chosen_offset = λ f fdt. 8;
  add_chosen = λ f fdt. (8, f);
  setprop = λ f fdt node name v. (0, set_props f (slot name) v);
  setprop_inplace = λ f fdt node name v. (0, set_props f (slot name) v);
  pack = λ f fdt. f;
}

abbrev chosen_values : Memory → (fdt : ℕ) → Values
chosen_values f fdt p = some (value (props f) (slot p))

slot-number : (p : Property) → slot p ≡ property_number p
slot-number p = ground arith

chosen_values-set :
    (f : Memory) (p q : Property) (v : List ℕ)
    → chosen_values (set_props f (slot p) v) 0 q ≡ with_value p v (chosen_values f 0) q
chosen_values-set f p q v =
    ap (λ (g : Memory). some (value g (slot q))) (props-set_props f (slot p) v)
    ∙ elim (Bool-cases (property_number p == property_number q)) [
      | inl same ↦
          let mine : slot q ≡ slot p = ground (arith, slot-number p, slot-number q) in
          rw (same, mine) (ap some (value-store (props f) (slot p) v (slot-small p)))
      | inr differs ↦ rw differs (
          ap some (
            value-store_other (props f) (slot p) (slot q) v (slot-small q)
              (λ e. ground (arith, e, slot-number p, slot-number q))))
    ]

counting_tree-KeepsTree : KeepsTree counting_tree
counting_tree-KeepsTree = record {
  chosen = chosen_values;
  set_value = λ f fdt node p q v at e. chosen_values-set f p q v;
  set_offset = λ f fdt node p v at e. at;
  set_reservations = λ f fdt node p v e. refl;
  add_offset = λ f fdt e. refl;
  add_reservations = λ f fdt e. refl;
  delete_one = λ f fdt n h counted deleted. ground (arith, h);
  pack_value = λ f fdt q. refl;
  pack_reservations = λ f fdt. refl;
}

-- Two reservations, and a tree of the firmware at 0x400000.
abbrev before : Machine
before = start_with (λ a. if a == 0 then 2 else 0)

abbrev command : List ℕ
command = b'a' ∷ b'=' ∷ b'1' ∷ 0 ∷ []

updates :
    (update_fdt counting_tree 0x7000 0x400000 0 0x500000 0x1000 (some command) before).0
    ≡ efi_success
unfolding update_fdt usable_fdt create_fdt delete_reservations fill_chosen set_all strlen
updates = refl

update_fdt-chosen_example :
    let f =
      (update_fdt counting_tree 0x7000 0x400000 0 0x500000 0x1000 (some command) before).1.memory in
    let copied = (create_fdt counting_tree 0x400000 0x500000 0x1000 before).1.memory in
    RuntimeValues counting_tree counting_tree-KeepsTree 0x500000 0x7000 f
    × BootArgs counting_tree counting_tree-KeepsTree 0x500000 (some command) f
    × NoneReserved counting_tree counting_tree-KeepsTree 0x500000 copied f
update_fdt-chosen_example =
    update_fdt-chosen counting_tree counting_tree-KeepsTree 0x500000 0x7000 0x400000 0 0x1000
      (some command) before updates
