-- ===== src/Bitcask/Shutdown.antt =====
-- src/BitcaskImpl.cpp and BitcaskImpl.hpp: the end of a database. The destructor waits for the worker,
-- and then the members go, the active file before the stable ones.
use mathlib.Core.List.{foldl}
use memkvin_c.Base.{false, Option, none, some, ℕ}
use memkvin_c.Crc.{Crc32c}
use memkvin_c.HashMap.{HashMap}
use memkvin_c.ActiveFile
use memkvin_c.ActiveFile.{ActiveFile}
use memkvin_c.StableFile
use memkvin_c.StableFile.{StableFile}
use memkvin_c.Disk.{Disk}
use memkvin_c.Bitcask.Engine.{Engine, StableFiles}
use memkvin_c.Bitcask.Worker.{finished, swapping, committing, testing}
use memkvin_c.Bitcask.Turns.{run}
use memkvin_c.Bitcask.Api.{Database, patience}

abbrev pub close_active : Option ActiveFile → Disk → Disk
close_active none disk = disk
close_active (some file) disk = ActiveFile.destroy file disk

abbrev pub close_stables : StableFiles → Disk → Disk
close_stables files disk =
    foldl (λ (d : Disk) (entry : ℕ × StableFile). StableFile.destroy entry.1 d) disk files

module _ {hash : HashMap} where
  -- The members' destructors: the disk that they leave.
  unfoldable pub close_files : Engine hash → Disk
  close_files e = close_stables e.stable_files (close_active e.active_file e.disk)

  -- Behind the join; `none` where the worker has not left its loop.
  abbrev pub joined : Database hash → Option Disk
  joined (e, finished) = some (close_files e)
  joined (e, swapping) = none
  joined (e, committing ws) = none
  joined (e, testing) = none

module _ (c : Crc32c) {hash : HashMap} where
  -- BitcaskImpl::~BitcaskImpl
  unfoldable pub destroy : Database hash → Option Disk
  destroy (e, pc) = elim (run c patience (record e { running = false }, pc)) [
    | none ↦ none
    | some s ↦ joined s
  ]
