-- ===== src/Driver/Tracefile/Tests.antt =====
-- A trace file of three requests, and one with a type character that is not known.
use s_system_programmin.Common.{◌-◌, ◌^◌, some, arith, ◌≢◌, ◌≡◌, refl, [], ◌∷◌, codes}
use s_system_programmin.Driver.Replay.{alloc, realloc, free}
use s_system_programmin.Driver.Tracefile.{
  unsigned, out_of_fuel, converted, scan_number, scan_into, scan_size, scan_two, scan_ud, bogus,
  request, read_requests, read_body, read_trace,
}
use s_system_programmin.Driver.Tracefile.Spelling.{
  Spells, Requests, no_requests, alloc_line, realloc_line, free_line,
}
use s_system_programmin.Driver.Tracefile.Ends.{read_trace-ends}
use s_system_programmin.Driver.Tracefile.Files.{expected, read_trace-Requests}

abbrev zero_digits : Spells 0 (codes "0")
zero_digits = record { some_digit = refl; only_digits = refl; value = refl; fits = ground arith }

three_lines : Requests (alloc 0 512 ∷ realloc 0 600 ∷ free 0 ∷ []) (codes "a 0 512\nr 0 600\nf 0\n")
three_lines =
    alloc_line {xs = codes "0"} {ys = codes "512"} zero_digits
      (record { some_digit = refl; only_digits = refl; value = refl; fits = ground arith })
      (realloc_line {xs = codes "0"} {ys = codes "600"} zero_digits
        (record { some_digit = refl; only_digits = refl; value = refl; fits = ground arith })
        (free_line {xs = codes "0"} zero_digits no_requests))

read_trace-Requests_example :
    read_trace (codes "20\n1\n3\n1\na 0 512\nr 0 600\nf 0\n")
    ≡ expected 20 1 3 1 (alloc 0 512 ∷ realloc 0 600 ∷ free 0 ∷ [])
read_trace-Requests_example =
    read_trace-Requests 20 1 3 1 (alloc 0 512 ∷ realloc 0 600 ∷ free 0 ∷ []) (codes "20")
      (codes "1") (codes "3") (codes "1") (codes "a 0 512\nr 0 600\nf 0\n")
      (record { some_digit = refl; only_digits = refl; value = refl; fits = ground arith })
      (record { some_digit = refl; only_digits = refl; value = refl; fits = ground arith })
      (record { some_digit = refl; only_digits = refl; value = refl; fits = ground arith })
      (record { some_digit = refl; only_digits = refl; value = refl; fits = ground arith })
      three_lines (ground arith)

no_such_type : read_trace (codes "20 1 3 1 x 0 512") ≡ bogus
unfolding read_trace read_body read_requests request scan_into scan_size scan_two scan_ud
    scan_number converted
no_such_type = refl

read_trace-ends_example : read_trace (codes "20 1 1 1 a") ≢ out_of_fuel
read_trace-ends_example = read_trace-ends (codes "20 1 1 1 a")

-- A negative id
negative_id : scan_number unsigned (codes " -5\n") ≡ some (2 ^ 32 - 5, codes "\n")
unfolding scan_number converted
negative_id = refl
