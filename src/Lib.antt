-- ===== src/Lib.antt =====
-- ucimf, an input method framework for the Linux text console. The library sits between a terminal
-- and the input method modules that it loads: it turns key codes into input for the current module,
-- and keeps three small windows near the text cursor, which save and restore the screen below them.
--
-- The parts, with the files of the repository that they model:
--
-- Options: libucimf/src/options.cpp. The lines and the table of a configuration file
-- (`Options::parse_file`, `Options::getOption`) and the choice of the file (`Options::Options`). A
-- `std::map` is an association list; the environment and the files are the record `System`.
--
-- Keyboard: the keyboard part of libucimf/src/ucimf.cpp. The static variables are the record
-- `Keyboard`; `keycode_to_keysym`, `keypad_keysym_redirect`, `keysym_to_term_string` and `to_utf8`
-- have their names, and Keyboard/Scan is the loop of `ucimf_process_raw` over the codes read. The
-- ioctl calls on the console are the record `Kernel`. A char or short counter wraps as in the
-- source.
--
-- Display: libucimf/display/graphdev.h as an interface, `GraphDev`, with the laws `IsGraphDev` that
-- the windows use; Display/LineDrawing is the lines and rectangles of
-- libucimf/display/graphdev.cpp, Display/Areas the sizes of areas. Display/Packed is the filling
-- and reversing of areas in fblinear15.cpp, fblinear16.cpp and fblinear24.cpp, over a memory of
-- bytes, with its proofs in Display/Words, Filling and Reversing; Display/Restoring is the saving
-- and restoring in fblinear24.cpp, Display/Linear16 the rest of fblinear16.cpp and fblinear15.cpp,
-- with its proofs in Words16, SavingWords and Saving16, Display/Linear32 the driver fblinear32.cpp,
-- with its proofs in Longs, Saving32 and Filling32, and Display/Linear8 the filling, restoring and
-- single pixels of fblinear8.cpp.
--
-- Display/Vga: libucimf/display/fbvgaplanes.cpp, and Display/Vga/Dev: libucimf/display/vgadev.cpp.
-- The card is the parameter `Card`, with what VGA cards are documented to do as the laws `IsCard`.
-- Masks, Runs, Parts, Rows, Columns and Geometry lead from the bits of a mask to the pixels of an
-- area; Registers is about the ports.
--
-- Display/Opening: `FBDev::TryOpen` of libucimf/display/fbdev.cpp, as it is built for Linux, and
-- `GraphDev::Open`, `Close` and `ClearScr`. The files, what the kernel tells of the screen, the
-- mapping, and whether the library is built with USING_VGA are the record `Kernel`; the static
-- variables are the record `Statics`. That FBVgaPlanes sets registers when it is constructed stands
-- in Display/Vga.
--
-- Window: libucimf/src/window.cpp and libucimf/src/graphport.cpp. A window's record holds the
-- fields of its port. `Desktop` is all that the windows and the manager share; an operation that a
-- failed assertion or a null pointer ends is `none`.
--
-- Cwm: libucimf/src/cwm.cpp, the window manager; its three placements, which have the same body,
-- and the showing and hiding of all windows with the focus. `Window::wh` calls the manager back,
-- which calls `Window::xy`: so Window/Resize stands behind Cwm. Cwm/Focus, Move and Position are
-- about windows that may be visible.
--
-- Ustring: libucimf/src/type.cpp, with iconv as a parameter.
--
-- Widget: libucimf/src/shape.cpp and libucimf/src/widget.cpp: texts, rectangles, the rendering in
-- two passes, of which the first measures, and the three widgets (Widget/Panel) with the colours
-- that they read of the options (Widget/Colors).
--
-- Ucimf: the entry points of libucimf/src/ucimf.cpp. They ask the windows through the interface
-- `Front`, which Ucimf/Panels fills with the window manager and the widgets; the modules are the
-- record `Imf`, since they are loaded at run time; what a module does before a trapped crash stays.
-- Ucimf/Start puts `ucimf_init` together from the options, the font, the widgets and the modules.
--
-- Fbterm: patches/fbterm/fbterm_ucimf.cpp, the server that FbTerm starts. It hands the messages of
-- the terminal to the entry points, with keys and the room of their buffer.
--
-- Fonts: the faces and the glyph cache of libucimf/font/font.cpp, with fontconfig and FreeType as
-- the record `FreeType`; Fonts/Setup is `Font::setInfo`, `createInstance` and the size of a cell;
-- Fonts/OutChar is `GraphDev::OutChar` of libucimf/display/graphdev.cpp, which draws the glyphs.
-- The arrays are functions, and a cell that was never set is `none`.
--
-- OpenVanilla: the module of ucimf-openvanilla/src. OpenVanilla/Utf16, Decimal, Dictionary and
-- Bridge are the objects of openvanilla.cpp that an input method calls; OpenVanilla/Module and
-- Libraries are ovimf.cpp, with the input methods, the loader and the file system as parameters. It
-- calls the widgets through the interface `Widgets` of Widget/Calls.
--
-- SunPinyin: the module of ucimf-sunpinyin/src/sunpinyin.cpp, with the session as a parameter, over
-- the same interface.
--
-- Coordinates are unbounded integers, and the C code's ints are supposed not to overflow on them.
-- The loops are structural on a list, a number of lines, or the steps that are left; only the loop
-- over the modules of a library runs on fuel, of which a step for each module and one more is
-- enough.
--
-- Not modelled: what is left of the drivers with 8, 24 and 4 bits to a pixel (the saving with 8
-- bits writes to a buffer that was never there or was freed, in every run), the screens of FreeBSD
-- and the video BIOS library; how fontconfig is asked for the fonts; signal handlers and the log;
-- the bridge to Chewing, which passes on a pointer that was never set in every run; what becomes of
-- the characters of destroyed strings, which `OVImfService::locale` and `userSpacePath` return;
-- FbTerm's own client code, which patches/fbterm has a copy of, and the samples.
pub mod Prelude
pub mod Options
pub mod Keyboard
pub mod Display
pub mod Window
pub mod Cwm
pub mod Ustring
pub mod Widget
pub mod Ucimf
pub mod Fbterm
pub mod Fonts
pub mod OpenVanilla
pub mod SunPinyin
pub mod Tests
