-- ===== src/Tests/MapsRuns.antt =====
-- Runs of the path mapping, on files like those of tests/ctest/path_map_test.cpp.
use xdebug.Prelude.{◌≡◌, refl, Bytes, codes, some}
use xdebug.Maps.Types.{directory, lines}
use xdebug.Maps.Lookup.{
  PathMaps, mapped, skipped, no_rule, path_maps_ctor, remote_to_local, local_to_remote,
  lookup_program,
}
use xdebug.Maps.Parser.Copy.{parse_file, parse_program, success}

abbrev contents : Bytes
contents = codes "remote_prefix: /www\n/a.php:5-17 = /l/a.php:1-13\n/a.php:20=SKIP\n/dir/ = /l/d/\n"

abbrev parsed : PathMaps
parsed = (parse_file path_maps_ctor (codes "/cwd") (some contents)).0

parse-contents : (parse_file path_maps_ctor (codes "/cwd") (some contents)).1 ≡ success
unfolding parse_program lookup_program
parse-contents = refl

lookups :
    (remote_to_local parsed (codes "/www/a.php") 7 ≡ mapped lines (codes "/l/a.php") 3)
    × (remote_to_local parsed (codes "/www/a.php") 20 ≡ skipped)
    × (remote_to_local parsed (codes "/www/dir/x/b.php") 4
        ≡ mapped directory (codes "/l/d/x/b.php") 4)
    × (local_to_remote parsed (codes "/l/a.php") 13 ≡ mapped lines (codes "/www/a.php") 17)
    × (local_to_remote parsed (codes "/l/q.php") 13 ≡ no_rule)
unfolding parse_program lookup_program
lookups = (refl, refl, refl, refl, refl)
