-- ===== src/Camera.antt =====
-- release/build/uiinterfacethread.cpp: UIInterfaceWriterThread::run with emit_record, down to the
-- targets: the way of a report from the socket of a camera into the stores.
pub mod Laws
mod Tests
use robot_arm_2d.Double.{Double}
use robot_arm_2d.Pattern.{deliver}
use robot_arm_2d.Prelude.{List, map, Option, none, some, ◌>>=◌, Bytes}
use robot_arm_2d.Scene.{Scene}
use robot_arm_2d.Stream.{WriterThread, run, emit_record}

module _ {ℓ} {D : Type ℓ} ⦃d : Double D⦄ where
  -- What the texts that arrive do to the thread and to the targets, where nothing else writes to the
  -- targets meanwhile.
  unfoldable pub camera : WriterThread → List Bytes → Scene D → Option (WriterThread × Scene D)
  camera w texts scene = run w texts >>= λ o. some (o.0, deliver (map emit_record o.1) scene)
