-- ===== src/Probe/Tests.antt =====
-- kprobes and debug: a probe on a name that the kernel knows.
use kernel_examples.Prelude.{ℕ, refl, false, some, List, [], ◌∷◌, ◌==◌, if◌then◌else◌}
use kernel_examples.Prelude.Int.{pos}
use kernel_examples.Kernel.{nothing, fail}
use kernel_examples.Probe.{Module, test_init, zap_init, jprobe_test_init, zap_jprobe_init}
use kernel_examples.Probe.Laws.{ProbeEnds, JprobeEnds, init-ProbeEnds}

-- Only names that start with an r are known.
abbrev kallsyms : List ℕ → ℕ
kallsyms [] = 0
kallsyms (c ∷ name) = if c == b'r' then 4096 else 0

abbrev given : Module
given = record {
  address = 0;
  name = some (b'r' ∷ b'm' ∷ []);
  addr = 0;
  has_pre = false;
  has_post = false;
  has_fault = false;
  held = nothing;
}

init-ProbeEnds_example :
    ProbeEnds 4096 (pos 0) given (test_init kallsyms (pos 0) given)
    × ProbeEnds 4096 (pos 0) given (zap_init kallsyms (pos 0) given)
    × JprobeEnds (pos 0) (fail 1) nothing (jprobe_test_init (pos 0) nothing)
    × JprobeEnds (pos 0) (pos 0) nothing (zap_jprobe_init (pos 0) nothing)
init-ProbeEnds_example = init-ProbeEnds kallsyms (pos 0) given refl
