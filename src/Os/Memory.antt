-- ===== src/Os/Memory.antt =====
-- A file system in memory: files by their paths, no directories and no errors of the device.
-- It shows that the interface's assumptions can be met, and runs in the tests.
use mhserver.Common.{
  ℕ, ◌≡◌, refl, Option, none, some, List, [], Text, length, take, drop, ltb, if◌then◌else◌, arith,
  length-take, Bool-cases, inl, inr,
}
use mhserver.Common.Int.{ℤ, pos, negsuc}
use mhserver.Common.Words.{i64_mod}
use mhserver.Common.Dict.{Dict, lookup, insert, text_eq, lookup-insert}
use mhserver.Os.{
  Os, OsError, not_exist, eof, other, OsResult, got, failed, Statfs, HasFiles, IsWorking, patch,
}

abbrev pub Files : Type 0
Files = Dict Text (List ℕ)

abbrev file_of : Option (List ℕ) → List ℕ
file_of none = []
file_of (some bytes) = bytes

abbrev pub contents_of : Text → Files → List ℕ
contents_of path w = file_of (lookup path w)

abbrev read_bytes : Text → ℕ → ℤ → Files → List ℕ × Option OsError
read_bytes path n (pos offset) w =
    let bytes = take n (drop offset (contents_of path w)) in
    (bytes, (if ltb (length bytes) n then some eof else none))
read_bytes path n (negsuc k) w = ([], some other)

abbrev write_bytes : Text → List ℕ → ℤ → Files → Files × Option OsError
write_bytes path bytes (pos offset) w =
    (insert path (patch (contents_of path w) offset bytes) w, none)
write_bytes path bytes (negsuc k) w = (w, some other)

abbrev open_existing : Text → Files → Option (List ℕ) → Files × OsResult Text
open_existing path w none = (w, failed not_exist)
open_existing path w (some bytes) = (w, got path)

abbrev open_or_create : Text → Files → Option (List ℕ) → Files × OsResult Text
open_or_create path w none = (insert path [] w, got path)
open_or_create path w (some bytes) = (w, got path)

abbrev disk : Statfs
disk = record { bavail = 25; bsize = 4096 }

abbrev pub memory_os : Os
memory_os = record {
  World = Files;
  Handle = Text;
  open_rdonly = λ path w. open_existing path w (lookup path w);
  open_create = λ path w. open_or_create path w (lookup path w);
  stat_size = λ path w. got (length (contents_of path w));
  read_at = read_bytes;
  write_at = write_bytes;
  close = λ path w. w;
  statfs = λ path w. got disk;
  mkdir_all = λ path w. (w, none);
  remove_all = λ path w. (w, none);
  read_dir = λ path w. got [];
}

lookup_inserted :
    (path : Text) (bytes : List ℕ) (w : Files) → contents_of path (insert path bytes w) ≡ bytes
lookup_inserted path bytes w = ground (arith, lookup-insert path path bytes w)

pub memory_os-HasFiles : HasFiles memory_os
memory_os-HasFiles = record {
  contents = contents_of;
  IsReadable = λ h w. Unit;
  IsWritable = λ h w. Unit;
  read_full = λ h n offset w bytes e. ground (arith, length-take n (drop offset (contents_of h w)));
  read_short =
      λ h n offset w bytes e. ground (arith, length-take n (drop offset (contents_of h w)));
  written = λ h bytes offset w w' some_byte e.
      ground (arith, lookup_inserted h (patch (contents_of h w) offset bytes) w);
  write_negative = λ h bytes k w. refl;
}

pub memory_os-IsWorking : IsWorking memory_os memory_os-HasFiles
unfolding memory_os-HasFiles
memory_os-IsWorking = record {
  largest = i64_mod;
  opens_rdonly = λ path h w w' e. tt;
  opens_create = λ path h w w' e. (tt, tt);
  reads = λ h n offset w readable.
      let bytes = take n (drop offset (contents_of h w)) in
      elim (Bool-cases (ltb (length bytes) n)) [
        | inl short ↦ (bytes, inr (rw short))
        | inr full ↦ (bytes, inl (rw full))
      ];
  writes = λ h bytes offset w usable fits.
      (insert h (patch (contents_of h w) offset bytes) w, refl, (tt, tt));
}

pub contents-memory_os : (h : Text) (w : Files) → memory_os-HasFiles.contents h w ≡ contents_of h w
unfolding memory_os-HasFiles
contents-memory_os h w = refl

pub usable-memory_os :
    (h : Text) (w : Files) → memory_os-HasFiles.IsReadable h w × memory_os-HasFiles.IsWritable h w
unfolding memory_os-HasFiles
usable-memory_os h w = (tt, tt)

pub largest-memory_os : memory_os-IsWorking.largest ≡ i64_mod
unfolding memory_os-IsWorking
largest-memory_os = refl
