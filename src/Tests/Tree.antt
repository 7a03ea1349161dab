-- ===== src/Tests/Tree.antt =====
-- A libfdt for the examples that keeps the properties in memory: each of the eight properties has
-- every eighth cell, the first for the length of its value.
use dragon_stub.Base.{
  ℕ, zero, suc, ◌+◌, ◌*◌, ◌/◌, ◌%◌, ◌<◌, ◌≡◌, ◌≢◌, refl, ap, sym, ◌∙◌, arith, List, [], ◌∷◌, ◌==◌,
  if◌then◌else◌, length, get_or,
}
use dragon_stub.Machine.{Machine, Memory, efi_success}
use dragon_stub.Align.{u32}
use dragon_stub.Pages.{BootMemmap, sizeof_boot_memmap}
use dragon_stub.Fdt.{Libfdt, Property, to_be, set_all, update_fdt_memmap}
use dragon_stub.Fdt.Memmap.{ReadsBack, update_fdt_memmap-getprop}
use dragon_stub.Tests.Platform.{start_with}

abbrev pub slot : Property → ℕ
slot Property.address_cells = 0
slot Property.size_cells = 1
slot Property.bootargs = 2
slot Property.uefi_system_table = 3
slot Property.uefi_mmap_start = 4
slot Property.uefi_mmap_size = 5
slot Property.uefi_mmap_desc_size = 6
slot Property.uefi_mmap_desc_ver = 7

abbrev in_slot : ℕ → Property
in_slot n =
    if n == 0
    then Property.address_cells
    else if n == 1
    then Property.size_cells
    else if n == 2
    then Property.bootargs
    else if n == 3
    then Property.uefi_system_table
    else if n == 4
    then Property.uefi_mmap_start
    else if n == 5
    then Property.uefi_mmap_size
    else if n == 6
    then Property.uefi_mmap_desc_size
    else Property.uefi_mmap_desc_ver

pub slot-small : (p : Property) → slot p < 8
slot-small p = ground arith

in_slot-slot : (p : Property) → in_slot (slot p) ≡ p
in_slot-slot p = ground arith

slot-differs : (p q : Property) → q ≢ p → slot q ≢ slot p
slot-differs p q ne e = ne (sym (in_slot-slot q) ∙ ap in_slot e ∙ in_slot-slot p)

abbrev pub store : Memory → (slot : ℕ) → List ℕ → Memory
store f c v a = if a % 8 == c then get_or (length v ∷ v) (a / 8) 0 else f a

abbrev cells : Memory → (slot i n : ℕ) → List ℕ
cells f c i zero = []
cells f c i (suc n) = f (8 * i + c) ∷ cells f c (suc i) n

abbrev pub value : Memory → (slot : ℕ) → List ℕ
value f c = cells f c 1 (f c)

cells-all :
    (g : Memory) (c i : ℕ) (rest : List ℕ)
    → ((k : ℕ) → g (8 * (i + k) + c) ≡ get_or rest k 0)
    → cells g c i (length rest) ≡ rest
cells-all g c i [] h = refl
cells-all g c i (x ∷ rest) h =
    let head : g (8 * i + c) ≡ x =
      ap (λ (t : ℕ). g (8 * t + c)) {x = i} {y = i + 0} (omega arith) ∙ h 0 in
    let tail = cells-all g c (suc i) rest (λ k.
      ap (λ (t : ℕ). g (8 * t + c)) {x = suc i + k} {y = i + suc k} (omega arith) ∙ h (suc k)) in
    ap (λ (y : ℕ). y ∷ cells g c (suc i) (length rest)) head ∙ ap (λ (t : List ℕ). x ∷ t) tail

cells-same :
    (g f : Memory) (c i n : ℕ)
    → ((k : ℕ) → g (8 * k + c) ≡ f (8 * k + c))
    → cells g c i n ≡ cells f c i n
cells-same g f c i zero h = refl
cells-same g f c i (suc n) h =
    ap (λ (y : ℕ). y ∷ cells g c (suc i) n) (h i)
    ∙ ap (λ (t : List ℕ). f (8 * i + c) ∷ t) (cells-same g f c (suc i) n h)

store-cell :
    (f : Memory) (c k : ℕ) (v : List ℕ)
    → c < 8
    → store f c v (8 * k + c) ≡ get_or (length v ∷ v) k 0
store-cell f c k v lt =
    let at : (8 * k + c) / 8 ≡ k = omega (arith, lt) in
    let mine : (8 * k + c) % 8 ≡ c = omega (arith, lt) in
    ground (arith, mine, ap (λ (t : ℕ). get_or (length v ∷ v) t 0) at)

store-other :
    (f : Memory) (c d k : ℕ) (v : List ℕ) → d < 8 → d ≢ c → store f c v (8 * k + d) ≡ f (8 * k + d)
store-other f c d k v lt ne =
    let other : (8 * k + d) % 8 ≡ d = omega (arith, lt) in ground (arith, other)

pub value-store : (f : Memory) (c : ℕ) (v : List ℕ) → c < 8 → value (store f c v) c ≡ v
value-store f c v lt =
    let first : store f c v c ≡ length v =
      ap (store f c v) {x = c} {y = 8 * 0 + c} (omega arith) ∙ store-cell f c 0 v lt in
    ap (λ (n : ℕ). cells (store f c v) c 1 n) first
    ∙ cells-all (store f c v) c 1 v (λ k.
      store-cell f c (1 + k) v lt
      ∙ ap (λ (t : ℕ). get_or (length v ∷ v) t 0) {x = 1 + k} {y = suc k} (omega arith))

pub value-store_other :
    (f : Memory) (c d : ℕ) (v : List ℕ) → d < 8 → d ≢ c → value (store f c v) d ≡ value f d
value-store_other f c d v lt ne =
    let first : store f c v d ≡ f d =
      ap (store f c v) {x = d} {y = 8 * 0 + d} (omega arith)
      ∙ (store-other f c d 0 v lt ne ∙ ap f {x = 8 * 0 + d} {y = d} (omega arith)) in
    ap (λ (n : ℕ). cells (store f c v) d 1 n) first
    ∙ cells-same (store f c v) f d 1 (f d) (λ k. store-other f c d k v lt ne)

abbrev tree : Libfdt
tree = record {
  check_header = λ f fdt. 0;
  totalsize = λ f fdt. 0;
  open_into = λ f fdt buf bufsize. (0, f);
  create_empty_tree = λ f buf bufsize. (0, f);
  num_mem_rsv = λ f fdt. 0;
  del_mem_rsv = λ f fdt n. (0, f);
  root_offset = λ f fdt. 0;
  chosen_offset = λ f fdt. 8;
  add_chosen = λ f fdt. (8, f);
  setprop = λ f fdt node name v. (0, store f (slot name) v);
  setprop_inplace = λ f fdt node name v. (0, store f (slot name) v);
  pack = λ f fdt. f;
}

abbrev tree-ReadsBack : ReadsBack tree
tree-ReadsBack = record {
  getprop = λ f fdt node name. value f (slot name);
  same = λ f fdt node p v e. value-store f (slot p) v (slot-small p);
  other = λ f fdt node p q v ne e.
      value-store_other f (slot p) (slot q) v (slot-small q) (slot-differs p q ne);
}

abbrev blank : Machine
blank = start_with (λ _. 0)

abbrev boot_map : BootMemmap
boot_map = record {
  address = 0x200000;
  map_size = 96;
  desc_size = 48;
  desc_ver = 1;
  map_key = 77;
  buff_size = 480;
  descs = [];
}

updates : (update_fdt_memmap tree 0x400000 boot_map blank).0 ≡ efi_success
unfolding update_fdt_memmap set_all
updates = refl

update_fdt_memmap-getprop_example :
    let f = (update_fdt_memmap tree 0x400000 boot_map blank).1.memory in
    (value f 4 ≡ to_be 8 (0x200000 + sizeof_boot_memmap))
    × (value f 5 ≡ to_be 4 (u32 96))
    × (value f 6 ≡ to_be 4 (u32 48))
    × (value f 7 ≡ to_be 4 (u32 1))
update_fdt_memmap-getprop_example =
    update_fdt_memmap-getprop tree tree-ReadsBack 0x400000 boot_map blank updates
