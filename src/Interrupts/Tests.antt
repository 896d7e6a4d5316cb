-- ===== src/Interrupts/Tests.antt =====
-- Examples of kernel/core/interrupts.c.
use black_diamond_os.Prelude.{ℕ, ◌<◌, ◌≡◌, ◌≢◌, [], ◌==◌, if◌then◌else◌, arith}
use black_diamond_os.Prelude.BitAt.{bit}
use black_diamond_os.Machine.{done, Memory}
use black_diamond_os.Interrupts.{Interrupts, IdtEntry, add_unhandled_ints, irq_unmask}
use black_diamond_os.Interrupts.Table.{IsUnhandled, handler_of, IsGate, add_unhandled_ints-Gates}
use black_diamond_os.Interrupts.Masks.{data_port, line_of, irq_unmask-bit}

-- A machine with a table at 4096 whose ports all give 0xFF.
abbrev interrupts : Interrupts
interrupts = record {
  heap = record {
    phys = record {
      blocks = λ _. record {
        lead_sig = 0;
        next = 0;
        prev = 0;
        size = 0;
        free_mem_following = 0;
        trail_sig = 0;
      };
      first_block = 0;
      final_block = 0;
    };
    base = 0;
    free_space_for_cache = 0;
    free_space_for_slab = 0;
    free_space = 0;
    first_cache = 0;
    heap_end = 0;
    caches = λ _. record { next = 0; size = 0; avaliable_slabs = 0; full_slabs = 0 };
    slabs = λ _. record { next = 0; allocated_objects = 0; max_objects = 0; first_free_object = 0 };
    words = λ _. 0;
  };
  bytes = λ _. 0;
  idt = 4096;
  entries = λ _. record {
    isr_low = 0;
    cs_selector = 0;
    ist = 0;
    attributes = 0;
    isr_mid = 0;
    isr_high = 0;
    reserved = 0;
  };
  ports = λ _. 0xFF;
  writes = [];
  idtr_size = 0;
  idtr_offset = 0;
}

add_unhandled_ints-Gates_example :
    (m : Memory IdtEntry) × (add_unhandled_ints 9000 interrupts
      ≡ done tt (record interrupts { entries = m }))
    × ((q : ℕ) → IsUnhandled q → (handler_of (m q) ≡ 9000) × IsGate 0 (m q))
    × ((q : ℕ) → ¬ IsUnhandled q → m q ≡ interrupts.entries q)
add_unhandled_ints-Gates_example =
    add_unhandled_ints-Gates 9000 interrupts (omega arith) (omega arith)

irq_unmask-bit_example :
    (s' : Interrupts) × (irq_unmask 9 interrupts ≡ done tt s')
    × ((k : ℕ)
        → k < 8
        → bit k (s'.ports (data_port 9))
          ≡ (if k == line_of 9 then 0 else bit k (interrupts.ports (data_port 9))))
    × ((p : ℕ) → p ≢ data_port 9 → s'.ports p ≡ interrupts.ports p)
irq_unmask-bit_example = irq_unmask-bit 9 interrupts (omega arith)
