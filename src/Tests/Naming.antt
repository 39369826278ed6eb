-- ===== src/Tests/Naming.antt =====
-- Names on the sample, with every value of it unnamed.
use gvn.Prelude.{[]}
use gvn.Ir.Module.{Module}
use gvn.Ir.Naming.{set_instr_name}
use gvn.Ir.Naming.Distinct.{Names, set_instr_name-Names}
use gvn.Tests.Sample.{sample}

abbrev unnamed : Module
unnamed = record sample { name = λ a. [] }

set_instr_name-Names_example : Names unnamed 10 (set_instr_name unnamed 10 3).0
set_instr_name-Names_example = set_instr_name-Names unnamed 10 3
