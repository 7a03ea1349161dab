-- ===== src/Machine.antt =====
-- The state that the stub runs over: memory as bytes at addresses, the global variables of
-- apps/helper.c, apps/stub.c and apps/riscv-stub.c, and the calls made to the firmware so far.
-- The firmware is not part of the repository: it is a parameter that answers each call from the
-- history of calls, so it may keep any state of its own.
use dragon_stub.Base.{Option, ℕ, ◌<◌, ◌+◌, ◌^◌, Bool, List, ◌∷◌}

-- The identifiers of the tables, protocols and variables that the stub names.
pub data Guid : Type 0 where
  boot_memmap memreserve_table rt_properties_table device_tree dragonstub_payload : Guid
  memory_attribute_protocol riscv_boot_protocol tcg2_protocol rng_protocol : Guid

-- The variables of the firmware that apps/secureboot.c reads.
pub data Variable : Type 0 where
  secure_boot setup_mode mok_sb_state_rt : Variable

-- efi_status_t: zero is success, errors have the top bit.
abbrev pub efierr : ℕ → ℕ
efierr n = 2 ^ 63 + n

abbrev pub efi_success : ℕ
efi_success = 0

-- In the place of a status: the stub stands still in efi_todo. It is no word of 64 bits.
abbrev pub standstill : ℕ
standstill = 2 ^ 64

abbrev pub efi_load_error : ℕ
efi_load_error = efierr 1

abbrev pub efi_invalid_parameter : ℕ
efi_invalid_parameter = efierr 2

abbrev pub efi_unsupported : ℕ
efi_unsupported = efierr 3

abbrev pub efi_buffer_too_small : ℕ
efi_buffer_too_small = efierr 5

abbrev pub efi_out_of_resources : ℕ
efi_out_of_resources = efierr 9

abbrev pub efi_not_found : ℕ
efi_not_found = efierr 14

abbrev pub efi_page_size : ℕ
efi_page_size = 4096

-- efi_memory_desc_t, without the type and the padding.
pub record Desc : Type 0 where
  pub physical_start : ℕ
  pub virtual_start : ℕ
  pub number_of_pages : ℕ
  pub attribute : ℕ

-- What GetMemoryMap hands back: the status and the values behind its pointer arguments.
pub record MapReply : Type 0 where
  pub status : ℕ
  pub map_size : ℕ
  pub map_key : ℕ
  pub desc_size : ℕ
  pub desc_ver : ℕ
  pub descs : List Desc

-- A call of the firmware with its arguments, and the status and the value that it returned.
pub data Event : Type 0 where
  allocate_pages : (kind memory_type pages request status address : ℕ) → Event
  free_pages : (address pages : ℕ) → Event
  allocate_pool : (memory_type size status address : ℕ) → Event
  free_pool : (address : ℕ) → Event
  get_memory_map : (room : ℕ) → MapReply → Event
  install_configuration_table : Guid → (address status : ℕ) → Event
  exit_boot_services : (handle map_key status : ℕ) → Event
  set_virtual_address_map : (size desc_size desc_ver status : ℕ) → List Desc → Event
  locate_protocol : Guid → (status address : ℕ) → Event
  get_memory_attributes : (base size status attributes : ℕ) → Event
  clear_memory_attributes : (base size attributes status : ℕ) → Event
  get_boot_hartid : (status : ℕ) (hartid : Option ℕ) → Event
  get_variable : Variable → (status attr value : ℕ) → Event
  hash_log_extend_event : (load_addr load_size event status : ℕ) → Event
  get_rng : (size out status : ℕ) → Event

-- The last call comes first.
abbrev pub History : Type 0
History = List Event

pub record Firmware : Type 0 where
  pub allocate_pages : History → (kind memory_type pages request : ℕ) → ℕ × ℕ
  pub allocate_pool : History → (memory_type size : ℕ) → ℕ × ℕ
  pub get_memory_map : History → (room : ℕ) → MapReply
  pub install_configuration_table : History → Guid → (address : ℕ) → ℕ
  pub exit_boot_services : History → (handle map_key : ℕ) → ℕ
  pub set_virtual_address_map : History → (size desc_size desc_ver : ℕ) → List Desc → ℕ
  pub locate_protocol : History → Guid → ℕ × ℕ
  pub get_memory_attributes : History → (base size : ℕ) → ℕ × ℕ
  pub clear_memory_attributes : History → (base size attributes : ℕ) → ℕ
  -- The status, and what was stored behind the pointer, if anything was.
  pub get_boot_hartid : History → ℕ × Option ℕ
  -- GetVariable with room for one byte: the status, the attributes and the byte.
  pub get_variable : History → Variable → ℕ × ℕ × ℕ
  pub hash_log_extend_event : History → (load_addr load_size event : ℕ) → ℕ
  -- GetRNG of the protocol at an address: the status, and the bytes that it stores.
  pub get_rng : History → (protocol size : ℕ) → ℕ × List ℕ
  -- The entries of the system table's configuration table.
  pub config_tables : History → List (Guid × ℕ)

-- The global variables that the modelled functions read or write.
pub record Globals : Type 0 where
  pub efi_nochunk : Bool
  pub efi_nokaslr : Bool
  pub efi_novamap : Bool
  pub efi_noinitrd : Bool
  pub efi_nosoftreserve : Bool
  pub efi_disable_pci_dma : Bool
  pub hartid : ℕ

abbrev pub Memory : Type 0
Memory = ℕ → ℕ

-- A cell is of type u8.
abbrev pub IsBytes : Memory → Type 0
IsBytes f = (a : ℕ) → f a < 256

pub record Machine : Type 0 where
  pub memory : Memory
  pub globals : Globals
  pub history : History

-- A stateful function returns its result and the new state.
abbrev pub M : Type 0 → Type 0
M A = Machine → A × Machine

abbrev pub pure : {A : Type 0} → A → M A
pure a m = (a, m)

infixl 5 ◌>>=◌ ◌>>◌
abbrev pub ◌>>=◌ : {A B : Type 0} → M A → (A → M B) → M B
◌>>=◌ f k m = let r = f m in k r.0 r.1

abbrev pub ◌>>◌ : {B : Type 0} → M (Unit {0}) → M B → M B
f >> k = f >>= λ _. k

abbrev pub get_memory : M Memory
get_memory m = (m.memory, m)

abbrev pub put_memory : Memory → M (Unit {0})
put_memory f m = (tt, record m { memory = f })

abbrev pub get_globals : M Globals
get_globals m = (m.globals, m)

abbrev pub put_globals : Globals → M (Unit {0})
put_globals g m = (tt, record m { globals = g })

abbrev pub emit : Event → Machine → Machine
emit e m = record m { history = e ∷ m.history }

-- efi_bs_call and the calls of protocols, one for each service.
module _ (fw : Firmware) where
  abbrev pub call_allocate_pages : (kind memory_type pages request : ℕ) → M (ℕ × ℕ)
  call_allocate_pages kind memory_type pages request m =
      let r = fw.allocate_pages m.history kind memory_type pages request in
      (r, emit (Event.allocate_pages kind memory_type pages request r.0 r.1) m)

  abbrev pub call_allocate_pool : (memory_type size : ℕ) → M (ℕ × ℕ)
  call_allocate_pool memory_type size m =
      let r = fw.allocate_pool m.history memory_type size in
      (r, emit (Event.allocate_pool memory_type size r.0 r.1) m)

  abbrev pub call_get_memory_map : (room : ℕ) → M MapReply
  call_get_memory_map room m =
      let r = fw.get_memory_map m.history room in (r, emit (Event.get_memory_map room r) m)

  abbrev pub call_install_configuration_table : Guid → (address : ℕ) → M ℕ
  call_install_configuration_table guid address m =
      let r = fw.install_configuration_table m.history guid address in
      (r, emit (Event.install_configuration_table guid address r) m)

  abbrev pub call_exit_boot_services : (handle map_key : ℕ) → M ℕ
  call_exit_boot_services handle map_key m =
      let r = fw.exit_boot_services m.history handle map_key in
      (r, emit (Event.exit_boot_services handle map_key r) m)

  abbrev pub call_set_virtual_address_map : (size desc_size desc_ver : ℕ) → List Desc → M ℕ
  call_set_virtual_address_map size desc_size desc_ver descs m =
      let r = fw.set_virtual_address_map m.history size desc_size desc_ver descs in
      (r, emit (Event.set_virtual_address_map size desc_size desc_ver r descs) m)

  abbrev pub call_locate_protocol : Guid → M (ℕ × ℕ)
  call_locate_protocol guid m =
      let r = fw.locate_protocol m.history guid in (r, emit (Event.locate_protocol guid r.0 r.1) m)

  abbrev pub call_get_memory_attributes : (base size : ℕ) → M (ℕ × ℕ)
  call_get_memory_attributes base size m =
      let r = fw.get_memory_attributes m.history base size in
      (r, emit (Event.get_memory_attributes base size r.0 r.1) m)

  abbrev pub call_clear_memory_attributes : (base size attributes : ℕ) → M ℕ
  call_clear_memory_attributes base size attributes m =
      let r = fw.clear_memory_attributes m.history base size attributes in
      (r, emit (Event.clear_memory_attributes base size attributes r) m)

  abbrev pub call_get_boot_hartid : M (ℕ × Option ℕ)
  call_get_boot_hartid m =
      let r = fw.get_boot_hartid m.history in (r, emit (Event.get_boot_hartid r.0 r.1) m)

  abbrev pub call_get_variable : Variable → M (ℕ × ℕ × ℕ)
  call_get_variable name m =
      let r = fw.get_variable m.history name in (r, emit (Event.get_variable name r.0 r.1 r.2) m)

  abbrev pub call_hash_log_extend_event : (load_addr load_size event : ℕ) → M ℕ
  call_hash_log_extend_event load_addr load_size event m =
      let r = fw.hash_log_extend_event m.history load_addr load_size event in
      (r, emit (Event.hash_log_extend_event load_addr load_size event r) m)

  abbrev pub get_config_tables : M (List (Guid × ℕ))
  get_config_tables m = (fw.config_tables m.history, m)

abbrev pub call_free_pages : (address pages : ℕ) → M (Unit {0})
call_free_pages address pages m = (tt, emit (Event.free_pages address pages) m)

abbrev pub call_free_pool : (address : ℕ) → M (Unit {0})
call_free_pool address m = (tt, emit (Event.free_pool address) m)
