-- ===== src/Double.antt =====
-- The C++ `double`: a type and the operations that the program uses on it, as a parameter.
use cloud_alert_system.Common.{Bool}
use cloud_alert_system.Text.{Bytes}

pub record Float (D : Type 0) : Type 0 where
  -- 0.0 and 1.0e100
  pub zero : D
  pub huge : D
  pub lt : D → D → Bool
  pub le : D → D → Bool
  pub atof : Bytes → D
  -- "%.2f"
  pub print_2 : D → Bytes
