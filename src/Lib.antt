-- ===== src/Lib.antt =====
-- Super Smack: the benchmark's own logic, modelled from the C++ sources under src/.
--
-- The program reads a script (its sections define queries, dictionaries, clients and tables, its
-- main section says what to run), forks clients that fire the queries of a barrel at a database,
-- and collects their reports through a pipe. A client's queries may name dictionaries, whose next
-- words are put in the place of the names.
--
-- Where each part stands:
--   Prelude, Result, StringMap: shared names; `int` as a value of ℤ that `+ᵢ` wraps to 32 bits; the
--     end of a process by `die` (src/die.cc) or by undefined behaviour, as values; `std::map` with
--     string keys, in the order of its keys.
--   Report: `Query_type_report` and `Query_report` of src/query.h and src/query.cc. Types has the
--     updates, Codec `fd_send` and `update_from_fd`; Message, Send and Merge are about what goes
--     through the pipe, Stats and Indexed about the numbers, Filled about null
--     pointers. Print has the clock,
--     what is printed of a report and what a script asks of it.
--   Query, Barrel: `Query` and `Query_barrel` of src/query.h, the lines of a query section and the
--     `query_barrel` line of a client section (src/parse.cc). Words and Shots are about the text of
--     the line, Reports about the barrel that it makes.
--     Fire is `Query_charge::fire` and `Client::unload_query_barrel`; Schedule and Counts are about
--     the order and the number of the shots, Elapsed about their times, Keeps about what the
--     calls of a connection leave as it was.
--   Dictionary: src/dictionary.h and src/dictionary.cc. The three subclasses are one type with a
--     `Kind`. Words is about `next_word`, Format has the
--     templates that `snprintf` takes, Template is about `fix_template`, LoadList and LoadFile have
--     the two loaders.
--   Client: `escape_string` and `safe_parsed_query` of src/client.cc, in Escape and ParsedQuery;
--     Delegates is what a client passes on to its barrel.
--   Path: `mk_data_path` of src/libsmack.cc. Engines: the table of src/engines.cc.
--   Section: the dictionary, table and client sections of src/parse.h and src/parse.cc; Dicts has
--     `make_dict`, Tables `validate_table`, Created `make_client`, Print what the `print` methods
--     write; below them are the theorems.
--   Main: `Main_line::execute` of src/parse.cc and `main` of src/super-smack.cc: the lines of the
--     main section, each with what `fork()` gives at it. Run is about which process runs which
--     line.
--   Script: a script from its text on. Token and Lexer are the rules of src/super-smack-lex.ll,
--     Grammar and Parser those of src/super-smack-yacc.yy: the parser is an automaton that takes
--     one token at a time and calls the actions of the grammar (`Actions`) as it reads.
--     Parser/Meaning says what a script means by its parts; Parser/Exprs, Complete and Sound are
--     about the parser, Lexer/Print and Escapes about the lexer. Values is `Val` of src/val.h.
--     Defs has the definitions that the sections fill, Run the actions on the pools of the process
--     and `do_parse`; Run/Lines leads from a text to the lines of Main.
--   Threads: `create_threads`, `thread_sync` and `transfer_report_data` of src/client.cc. System
--     has the children, the semaphore and the pipe, one step for each call of one process; Queue
--     and Collect (with Children and Steps) have the invariant, Gathered, Totals and Progress what
--     follows from it; Benchmark puts it together with the barrel that each child fires; Forks is
--     about the loop that forks. Semaphore has the set-up of the semaphore, its calls and its
--     removal by `die`; Dying is about children that end so, Exclusive about who has the lock.
--   TcpClient: the class of src/tcp_client.h and src/tcp_client.cc, which no other part uses;
--     Descriptor is about its descriptor and its status.
--   Database: the clients of MySQL (src/mysql-client.cc) and PostgreSQL (src/pg-client.cc), and the
--     result sets that both write. PgOwned, PgRuns and MysqlFreed are about who frees a
--     result; PgBarrel fires a barrel on the client of PostgreSQL, PgTaken is about queries that the
--     server accepts.
--   Options: `get_options` of src/super-smack.cc and the table of engines that it prints; Chosen is
--     about the engine that is chosen.
--   GenData: the data generator, src/gen-data.cc; Args has its options and its `main`.
--   Each part has its runs in its module Tests.
--
-- How the code is read:
--   Text is a list of bytes, a C string one that ends at its first NUL. A method takes the object
--   and returns the new one. A pointer that may be null is an `Option`; each pointer of the
--   modelled parts has one owner, and what it points to is kept in the owner's entry.
--   A loop over text is a recursion on it. The loop of `load_file` has fuel, which one round more
--   than there are lines suffices for. In Script/Run a load that has not ended within the
--   fuel is a crash of the model's own. Counters that go up by one for each line or word are
--   numbers without a bound; sums of counts and times wrap as an `int` does.
--   A pipe is a queue of bytes that gives a reader what it asks for as far as there is data. A
--   write is done whole, and a pipe is never full.
--   A process that ends by `die` has no state behind it; in Threads/System no process ends so.
--
-- Parameters, since their code is not in the repository or not in the logic: what printf prints
-- for a format (`sprintf`), the results of `rand()` (`rands`), the escaping of a client
-- (`escape`, of which only a bound on its length is used, and which `Client::escape_string` meets),
-- the floating-point reading of a pause (`sleep_time`), the files of the system (`files`), the
-- directory that the build sets (`datadir`), the padding of a number (`pad`), the calls of a
-- connection, of its clock and of the system (`Connection` in Barrel/Fire, `Calls` in
-- Section/Tables, `Methods` and `Fork` in Main), the libraries of the databases (`Libmysql`,
-- `Libpq`), what a script has of the system (`System` in Script/Run), doubles with `atof` and their
-- format (Script/Values), sockets and the clock (`Net`), and the rate of queries, a float
-- (`q_per_s`, `divide`). Where Database/PgBarrel fires a barrel, its `Connection` is made of the
-- functions of Database/Pg.
--
-- Not modelled: what Lex and Bison generate, of which the rules and the grammar are read; that the
-- children of a script share the offset of its file; in the steps of Threads/System, calls that are
-- interrupted, children that end by `die`, and other clients of the directory that set up or remove
-- the semaphore, which Threads/Dying and Threads/Semaphore have without the pipe;
-- `getopt_long` and the text of the usage; what goes to the standard error; the arithmetic of
-- doubles; the destructors that only free; and the stub of src/ora-client.cc and the test
-- programs, which are no part of the program.
pub mod Barrel
pub mod Client
pub mod Database
pub mod Dictionary
pub mod Engines
pub mod GenData
pub mod Main
pub mod Options
pub mod Path
pub mod Prelude
pub mod Query
pub mod Report
pub mod Result
pub mod Script
pub mod Section
pub mod StringMap
pub mod TcpClient
pub mod Threads
