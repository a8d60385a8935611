-- ===== src/Cli/Tests.antt =====
-- The properties of the options at concrete inputs.
use prometheus_ws_proxy_clie.Cli.{parse_parallel, parse_protocol}
use prometheus_ws_proxy_clie.Cli.Numbers.{IsReadBack, IsParallel, IsProtocol, parse-digits}

parse-digits_example :
    IsReadBack parse_parallel IsParallel 3 × IsReadBack parse_protocol IsProtocol 3
parse-digits_example = parse-digits 3
