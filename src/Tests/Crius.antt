-- ===== src/Tests/Crius.antt =====
-- The hooks of pkg/criu and of the GPU callbacks at concrete inputs.
use cedana.Base.{ℕ, ◌≡◌, refl, true, false, not, ◌&&◌, ◌||◌, List, [], ◌∷◌}
use cedana.Criu.Notify.{Notify}
use cedana.Criu.Swrk.{dump, Response, refused, finished, notifies, operate}
use cedana.Criu.Finalize.{traced, finalizes, operate-finalizes}
use cedana.Criu.GpuDump.{Gpu, untouched, gpu_dump, dump_lock, dump_frozen, talk}
use cedana.Base.{load, In, ℕ}
use cedana.Criu.GpuRestore.{GpuTarget, gpu_restore, restore_success, restore_failure, run_restore}

abbrev gpu : Gpu
gpu = record {
  present = true;
  freeze_ok = true;
  dump_ok = true;
  unfreeze_ok = true;
  leave_running = false;
}

abbrev pre : Response
pre = notifies (record { script = "pre-dump"; pid = 0; control_ok = true })

abbrev counting : ℕ → Notify (List ℕ)
counting n h s = (n ∷ s, false)

operate-finalizes_example :
    finalizes (operate (traced (gpu_dump gpu)) dump (pre ∷ refused ∷ []) (untouched, [])).0.1 ≡ 1
unfolding gpu_dump
operate-finalizes_example = operate-finalizes (gpu_dump gpu) dump (pre ∷ refused ∷ []) untouched

dump_lock_example :
    (operate (gpu_dump (record gpu { freeze_ok = false })) dump (finished ∷ []) untouched).0.locked
    ≡ true
dump_lock_example = dump_lock (record gpu { freeze_ok = false }) (finished ∷ [])

dump_frozen_example :
    (operate (gpu_dump gpu) dump (pre ∷ refused ∷ []) untouched).0.frozen
    ≡ not (
        (talk gpu (pre ∷ refused ∷ [])).0.started
        && (false || (talk gpu (pre ∷ refused ∷ [])).1)
        && true)
dump_frozen_example = dump_frozen gpu (pre ∷ refused ∷ []) refl refl

abbrev target : GpuTarget
target = record { in_pool = true; restore_ok = true; attach_ok = true }

abbrev broken : GpuTarget
broken = record target { restore_ok = false }

-- The process is restored under PID 9 and resumes.
abbrev restored : List Response
restored =
    notifies (record { script = "pre-restore"; pid = 0; control_ok = true })
    ∷ notifies (record { script = "post-restore"; pid = 9; control_ok = true })
    ∷ notifies (record { script = "pre-resume"; pid = 9; control_ok = true })
    ∷ finished
    ∷ []

restore_success_example : target.restore_ok ≡ true
unfolding operate load gpu_restore
restore_success_example = restore_success target restored refl refl

restore_failure_example : In 9 (run_restore broken restored).0.killed
unfolding operate load gpu_restore
restore_failure_example = restore_failure broken restored 9 refl refl refl
